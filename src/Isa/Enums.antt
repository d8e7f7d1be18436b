-- ===== src/Isa/Enums.antt =====
-- The enumerations of include/linx/model/isa/minst.hpp and codec.hpp, with the texts that
-- src/isa/minst.cpp prints for them.
use Prim.Native.String.{String}

pub data MinstOperandKind : Type 0 where
  invalid register immediate predicate memory control metadata : MinstOperandKind

pub data MinstWidth : Type 0 where
  none b8 b16 b32 b64 b128 : MinstWidth

pub data MinstOpcodeClass : Type 0 where
  invalid nop integer floating_point branch load store atomic system : MinstOpcodeClass

pub data MinstStage : Type 0 where
  invalid fetch decode rename dispatch issue execute memory writeback rob retire flush dfx :
      MinstStage

pub data MinstLifecycle : Type 0 where
  invalid allocated in_flight retired flushed traced : MinstLifecycle

pub data MinstCodecStatus : Type 0 where
  ok invalid_length no_match ambiguous_match constraint_violation invalid_form missing_field :
      MinstCodecStatus
  value_out_of_range : MinstCodecStatus

pub data MinstConstraintOp : Type 0 where
  eq ne lt le gt ge : MinstConstraintOp

unfoldable pub opcode_class_text : MinstOpcodeClass → String
opcode_class_text MinstOpcodeClass.invalid = "invalid"
opcode_class_text MinstOpcodeClass.nop = "nop"
opcode_class_text MinstOpcodeClass.integer = "int"
opcode_class_text MinstOpcodeClass.floating_point = "fp"
opcode_class_text MinstOpcodeClass.branch = "branch"
opcode_class_text MinstOpcodeClass.load = "load"
opcode_class_text MinstOpcodeClass.store = "store"
opcode_class_text MinstOpcodeClass.atomic = "atomic"
opcode_class_text MinstOpcodeClass.system = "system"

unfoldable pub lifecycle_text : MinstLifecycle → String
lifecycle_text MinstLifecycle.invalid = "invalid"
lifecycle_text MinstLifecycle.allocated = "allocated"
lifecycle_text MinstLifecycle.in_flight = "in_flight"
lifecycle_text MinstLifecycle.retired = "retired"
lifecycle_text MinstLifecycle.flushed = "flushed"
lifecycle_text MinstLifecycle.traced = "traced"

unfoldable pub operand_kind_text : MinstOperandKind → String
operand_kind_text MinstOperandKind.invalid = "invalid"
operand_kind_text MinstOperandKind.register = "reg"
operand_kind_text MinstOperandKind.immediate = "imm"
operand_kind_text MinstOperandKind.predicate = "pred"
operand_kind_text MinstOperandKind.memory = "mem"
operand_kind_text MinstOperandKind.control = "ctrl"
operand_kind_text MinstOperandKind.metadata = "meta"

unfoldable pub width_text : MinstWidth → String
width_text MinstWidth.none = "-"
width_text MinstWidth.b8 = "b8"
width_text MinstWidth.b16 = "b16"
width_text MinstWidth.b32 = "b32"
width_text MinstWidth.b64 = "b64"
width_text MinstWidth.b128 = "b128"

unfoldable pub stage_text : MinstStage → String
stage_text MinstStage.invalid = "invalid"
stage_text MinstStage.fetch = "fetch"
stage_text MinstStage.decode = "decode"
stage_text MinstStage.rename = "rename"
stage_text MinstStage.dispatch = "dispatch"
stage_text MinstStage.issue = "issue"
stage_text MinstStage.execute = "execute"
stage_text MinstStage.memory = "memory"
stage_text MinstStage.writeback = "writeback"
stage_text MinstStage.rob = "rob"
stage_text MinstStage.retire = "retire"
stage_text MinstStage.flush = "flush"
stage_text MinstStage.dfx = "dfx"

unfoldable pub codec_status_text : MinstCodecStatus → String
codec_status_text MinstCodecStatus.ok = "ok"
codec_status_text MinstCodecStatus.invalid_length = "invalid_length"
codec_status_text MinstCodecStatus.no_match = "no_match"
codec_status_text MinstCodecStatus.ambiguous_match = "ambiguous_match"
codec_status_text MinstCodecStatus.constraint_violation = "constraint_violation"
codec_status_text MinstCodecStatus.invalid_form = "invalid_form"
codec_status_text MinstCodecStatus.missing_field = "missing_field"
codec_status_text MinstCodecStatus.value_out_of_range = "value_out_of_range"
