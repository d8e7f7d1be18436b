-- ===== src/Isa/Minst/Views.antt =====
-- `Minst::RebuildTypedViews`: the operand lists and the memory record, from the decoded fields.
use Prim.Native.String.{String}
use text.Mathlib.Text.{◌==◌ as str_eq, starts_with}
use linx_model.Base.{Bool, true, false, ◌||◌, none, some, List, [], ◌∷◌, ◌++◌, if◌then◌else◌}
use linx_model.Isa.Enums.{MinstWidth, MinstOpcodeClass}
use linx_model.Isa.Names.{
  is_source_field, is_destination_field, is_immediate_field, kind_from_field,
}
use linx_model.Isa.Minst.{Minst, MinstDecodedField, unsigned_value, add_src, add_dst, init_memory}

-- The class that the ladder of tests assigns; an AGU operation of another group keeps the class
-- that the packet had.
unfoldable pub classify : String → String → MinstOpcodeClass → MinstOpcodeClass
classify big_kind uop_group before =
    if str_eq big_kind "ALU"
    then MinstOpcodeClass.integer
    else if str_eq big_kind "FSU"
    then MinstOpcodeClass.floating_point
    else if str_eq big_kind "BRU"
    then MinstOpcodeClass.branch
    else if str_eq big_kind "AMO"
    then MinstOpcodeClass.atomic
    else if str_eq big_kind "SYS" || str_eq big_kind "CMD"
    then MinstOpcodeClass.system
    else if str_eq big_kind "AGU"
    then if starts_with uop_group "LDA"
      then MinstOpcodeClass.load
      else if starts_with uop_group "STA"
      then MinstOpcodeClass.store
      else before
    else MinstOpcodeClass.invalid

abbrev pub is_branch_class : MinstOpcodeClass → Bool
is_branch_class c = elim c [ MinstOpcodeClass.branch ↦ true | _ ↦ false ]

abbrev pub is_system_class : MinstOpcodeClass → Bool
is_system_class c = elim c [ MinstOpcodeClass.system ↦ true | _ ↦ false ]

abbrev pub is_load_class : MinstOpcodeClass → Bool
is_load_class c = elim c [ MinstOpcodeClass.load ↦ true | _ ↦ false ]

abbrev pub is_store_class : MinstOpcodeClass → Bool
is_store_class c = elim c [ MinstOpcodeClass.store ↦ true | _ ↦ false ]

abbrev pub is_atomic_class : MinstOpcodeClass → Bool
is_atomic_class c = elim c [ MinstOpcodeClass.atomic ↦ true | _ ↦ false ]

-- The operand lists that the loop adds a field to.
unfoldable pub view_operand : Minst → MinstDecodedField → Minst
unfolding add_src add_dst kind_from_field unsigned_value is_source_field is_destination_field
view_operand m f =
    if is_source_field f.name
    then add_src m (kind_from_field f.name) (unsigned_value f) f.bit_width f.name
        "decoded source field"
    else if is_destination_field f.name
    then add_dst m (kind_from_field f.name) (unsigned_value f) f.bit_width f.name
        "decoded destination field"
    else m

unfoldable pub view_immediate : Minst → MinstDecodedField → Minst
unfolding is_immediate_field
view_immediate m f =
    if is_immediate_field f.name
    then record m {
      immediates = m.immediates ++ f ∷ [];
      shift_amount = if str_eq f.name "shamt" then some f else m.shift_amount;
    }
    else m

unfoldable pub view_fields : List MinstDecodedField → Minst → Minst
unfolding view_operand view_immediate
view_fields [] m = m
view_fields (f ∷ fs) m = view_fields fs (view_immediate (view_operand m f) f)

-- The first half of the function: cleared views and the class of the packet.
unfoldable pub classified : Minst → Minst
unfolding classify
classified m =
    let c = classify m.uop_big_kind m.uop_group m.opcode_class in
    record m {
      srcs = [];
      dsts = [];
      immediates = [];
      shift_amount = none;
      memory = none;
      opcode_class = c;
      is_branch = is_branch_class c;
      is_control = is_branch_class c || is_system_class c || str_eq m.uop_big_kind "CMD";
    }

unfoldable pub view_memory : Minst → Minst
unfolding init_memory unsigned_value
view_memory m =
    let c = m.opcode_class in
    if is_load_class c || is_store_class c || is_atomic_class c
    then init_memory m (is_load_class c) (is_store_class c) MinstWidth.none
        (elim m.shift_amount [ none ↦ 0 | some f ↦ unsigned_value f ]) m.uop_group
    else m

unfoldable pub rebuild_typed_views : Minst → Minst
unfolding classified view_fields view_memory
rebuild_typed_views m =
    let start = classified m in view_memory (view_fields start.decoded_fields start)
