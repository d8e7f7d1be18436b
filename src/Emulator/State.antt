-- ===== src/Emulator/State.antt =====
-- The architectural state of include/linx/model/emulator/state.hpp. An array is a function of the
-- index, the code's indices being in range.
use Prim.Native.String.{String}
use linx_model.Base.{ℕ, List}
use linx_model.Base.Int.{ℤ, negsuc}
use linx_model.Emulator.SharedTile.{SharedTileVersion, reset}

pub record LinxAcrBlockState : Type 0 where
  pub tq : ℕ → ℕ
  pub uq : ℕ → ℕ
  pub vtq : ℕ → ℕ
  pub vuq : ℕ → ℕ
  pub vmq : ℕ → ℕ
  pub vnq : ℕ → ℕ
  pub vec_p : ℕ
  pub bpc : ℕ
  pub tgt : ℕ
  pub cond : ℕ
  pub carg : ℕ
  pub brtype : ℕ
  pub blocktype : ℕ
  pub call_ra_set : ℕ
  pub call_setret_pending : ℕ
  pub body_tpc : ℕ
  pub body_end : ℕ
  pub return_pc : ℕ
  pub in_body : ℕ
  pub tmpl_pc : ℕ
  pub tmpl_kind : ℕ
  pub tmpl_step : ℕ
  pub tmpl_reg_cur : ℕ
  pub tmpl_reg_begin : ℕ
  pub tmpl_reg_end : ℕ
  pub tmpl_stacksize : ℕ
  pub tmpl_mem_dst : ℕ
  pub tmpl_mem_src : ℕ
  pub tmpl_mem_remaining : ℕ
  pub tmpl_mem_value : ℕ
  pub lb : ℕ → ℕ
  pub lc : ℕ → ℕ
  pub tile_func : ℕ
  pub tile_dtype : ℕ
  pub tile_iot_valid : ℕ
  pub tile_iot_flags : ℕ
  pub tile_iot_dst : ℕ
  pub tile_iot_grp : ℕ
  pub tile_iot_src0 : ℕ
  pub tile_iot_src1 : ℕ
  pub tile_iot_reg : ℕ
  pub tile_iot_size : ℕ
  pub tile_arg_format : ℕ
  pub tile_attr_raw : ℕ
  pub tile_attr_pad : ℕ
  pub tile_attr_dtype : ℕ
  pub tile_ior_count : ℕ
  pub tile_ior_desc : ℕ → ℕ
  pub vec_ri_count : ℕ
  pub vec_ri_value : ℕ → ℕ
  pub tile_iot_count : ℕ
  pub tile_iot_desc : ℕ → ℕ

abbrev pub no_acr_block : LinxAcrBlockState
no_acr_block = record {
  tq = λ i. 0;
  uq = λ i. 0;
  vtq = λ i. 0;
  vuq = λ i. 0;
  vmq = λ i. 0;
  vnq = λ i. 0;
  vec_p = 0;
  bpc = 0;
  tgt = 0;
  cond = 0;
  carg = 0;
  brtype = 0;
  blocktype = 0;
  call_ra_set = 0;
  call_setret_pending = 0;
  body_tpc = 0;
  body_end = 0;
  return_pc = 0;
  in_body = 0;
  tmpl_pc = 0;
  tmpl_kind = 0;
  tmpl_step = 0;
  tmpl_reg_cur = 0;
  tmpl_reg_begin = 0;
  tmpl_reg_end = 0;
  tmpl_stacksize = 0;
  tmpl_mem_dst = 0;
  tmpl_mem_src = 0;
  tmpl_mem_remaining = 0;
  tmpl_mem_value = 0;
  lb = λ i. 0;
  lc = λ i. 0;
  tile_func = 0;
  tile_dtype = 0;
  tile_iot_valid = 0;
  tile_iot_flags = 0;
  tile_iot_dst = 0;
  tile_iot_grp = 0;
  tile_iot_src0 = 0;
  tile_iot_src1 = 0;
  tile_iot_reg = 0;
  tile_iot_size = 0;
  tile_arg_format = 0;
  tile_attr_raw = 0;
  tile_attr_pad = 0;
  tile_attr_dtype = 0;
  tile_ior_count = 0;
  tile_ior_desc = λ i. 0;
  vec_ri_count = 0;
  vec_ri_value = λ i. 0;
  tile_iot_count = 0;
  tile_iot_desc = λ i. 0;
}

pub record LinxState : Type 0 where
  pub gpr : ℕ → ℕ
  pub tq : ℕ → ℕ
  pub uq : ℕ → ℕ
  pub vtq : ℕ → ℕ
  pub vuq : ℕ → ℕ
  pub vmq : ℕ → ℕ
  pub vnq : ℕ → ℕ
  pub vec_p : ℕ
  pub ssr : ℕ → ℕ
  pub ssr_acr : ℕ → ℕ → ℕ
  pub acr : ℕ
  pub fcsr : ℕ
  pub tgt : ℕ
  pub cond : ℕ
  pub carg : ℕ
  pub brtype : ℕ
  pub blocktype : ℕ
  pub call_ra_set : ℕ
  pub call_setret_pending : ℕ
  pub body_tpc : ℕ
  pub body_end : ℕ
  pub return_pc : ℕ
  pub in_body : ℕ
  pub tmpl_pc : ℕ
  pub tmpl_kind : ℕ
  pub tmpl_step : ℕ
  pub tmpl_reg_cur : ℕ
  pub tmpl_reg_begin : ℕ
  pub tmpl_reg_end : ℕ
  pub tmpl_stacksize : ℕ
  pub tmpl_mem_dst : ℕ
  pub tmpl_mem_src : ℕ
  pub tmpl_mem_remaining : ℕ
  pub tmpl_mem_value : ℕ
  pub lb : ℕ → ℕ
  pub lc : ℕ → ℕ
  pub acr_block_state : ℕ → LinxAcrBlockState
  pub tile_func : ℕ
  pub tile_dtype : ℕ
  pub tile_iot_valid : ℕ
  pub tile_iot_flags : ℕ
  pub tile_iot_dst : ℕ
  pub tile_iot_grp : ℕ
  pub tile_iot_src0 : ℕ
  pub tile_iot_src1 : ℕ
  pub tile_iot_reg : ℕ
  pub tile_iot_size : ℕ
  pub tile_arg_format : ℕ
  pub tile_attr_raw : ℕ
  pub tile_attr_pad : ℕ
  pub tile_attr_dtype : ℕ
  pub tile_ior_count : ℕ
  pub tile_ior_desc : ℕ → ℕ
  pub vec_ri_count : ℕ
  pub vec_ri_value : ℕ → ℕ
  pub tile_iot_count : ℕ
  pub tile_iot_desc : ℕ → ℕ
  pub tile_reg : ℕ → ℕ → ℕ
  pub tile_reg_bytes : ℕ → ℕ
  pub tile_acc : ℕ → ℕ
  pub tile_acc_bytes : ℕ
  pub shared_tile : List SharedTileVersion
  pub bpc : ℕ
  pub insn_pc_next : ℕ
  pub pc : ℕ
  pub insn_count : ℕ
  pub pending_trap_arg0 : ℕ
  pub pending_trap_cause : ℕ
  pub irq_level_acr : ℕ → ℕ
  pub lr_addr : ℕ
  pub lr_size : ℕ
  pub lr_valid : ℕ
  pub block_kind : String
  pub lane_id : ℤ

-- `Reset`, and a new state.
unfoldable pub initial_state : LinxState
unfolding reset
initial_state = record {
  gpr = λ i. 0;
  tq = λ i. 0;
  uq = λ i. 0;
  vtq = λ i. 0;
  vuq = λ i. 0;
  vmq = λ i. 0;
  vnq = λ i. 0;
  vec_p = 0;
  ssr = λ i. 0;
  ssr_acr = λ i j. 0;
  acr = 0;
  fcsr = 0;
  tgt = 0;
  cond = 0;
  carg = 0;
  brtype = 0;
  blocktype = 0;
  call_ra_set = 0;
  call_setret_pending = 0;
  body_tpc = 0;
  body_end = 0;
  return_pc = 0;
  in_body = 0;
  tmpl_pc = 0;
  tmpl_kind = 0;
  tmpl_step = 0;
  tmpl_reg_cur = 0;
  tmpl_reg_begin = 0;
  tmpl_reg_end = 0;
  tmpl_stacksize = 0;
  tmpl_mem_dst = 0;
  tmpl_mem_src = 0;
  tmpl_mem_remaining = 0;
  tmpl_mem_value = 0;
  lb = λ i. 0;
  lc = λ i. 0;
  acr_block_state = λ i. no_acr_block;
  tile_func = 0;
  tile_dtype = 0;
  tile_iot_valid = 0;
  tile_iot_flags = 0;
  tile_iot_dst = 0;
  tile_iot_grp = 0;
  tile_iot_src0 = 0;
  tile_iot_src1 = 0;
  tile_iot_reg = 0;
  tile_iot_size = 0;
  tile_arg_format = 0;
  tile_attr_raw = 0;
  tile_attr_pad = 0;
  tile_attr_dtype = 0;
  tile_ior_count = 0;
  tile_ior_desc = λ i. 0;
  vec_ri_count = 0;
  vec_ri_value = λ i. 0;
  tile_iot_count = 0;
  tile_iot_desc = λ i. 0;
  tile_reg = λ i j. 0;
  tile_reg_bytes = λ i. 0;
  tile_acc = λ i. 0;
  tile_acc_bytes = 0;
  shared_tile = reset;
  bpc = 0;
  insn_pc_next = 0;
  pc = 0;
  insn_count = 0;
  pending_trap_arg0 = 0;
  pending_trap_cause = 0;
  irq_level_acr = λ i. 0;
  lr_addr = 0;
  lr_size = 0;
  lr_valid = 0;
  block_kind = "scalar";
  lane_id = negsuc 0;
}
