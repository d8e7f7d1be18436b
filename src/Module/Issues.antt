-- ===== src/Module/Issues.antt =====
-- The validation of src/validation.cpp and of include/linx/model/module.hpp. The decimal digits of
-- an index, `std::to_string`, are given.
use Prim.Native.String.{String, ◌++◌ as append}
use text.Mathlib.Text.{◌==◌ as str_eq}
use linx_model.Base.{
  ℕ, suc, Bool, true, false, ◌||◌, ◌&&◌, Option, none, some, List, [], ◌∷◌, ◌++◌, if◌then◌else◌,
  length, get_elem?, ◌==◌,
}
use linx_model.Module.{PortDirection, PortInfo, ModuleState, Module, node, Modules, nil, cons}

pub data ValidationSeverity : Type 0 where
  warning error : ValidationSeverity

pub record ValidationIssue : Type 0 where
  pub severity : ValidationSeverity
  pub component : String
  pub message : String

abbrev pub ValidationReport : Type 0
ValidationReport = List ValidationIssue

unfoldable pub add_error : ValidationReport → String → String → ValidationReport
add_error report component message =
    report
    ++ record { severity = ValidationSeverity.error; component = component; message = message } ∷ []

unfoldable pub add_warning : ValidationReport → String → String → ValidationReport
add_warning report component message =
    report
    ++ record { severity = ValidationSeverity.warning; component = component; message = message }
      ∷ []

abbrev pub is_error : ValidationSeverity → Bool
is_error ValidationSeverity.warning = false
is_error ValidationSeverity.error = true

unfoldable pub has_errors : ValidationReport → Bool
has_errors [] = false
has_errors (issue ∷ issues) = is_error issue.severity || has_errors issues

unfoldable pub format : ValidationReport → String
format [] = ""
format (issue ∷ issues) = append (if is_error issue.severity then "error" else "warning") (
    append ": "
      (append issue.component (append ": " (append issue.message (append "\n" (format issues))))))

unfoldable pub direction_text : PortDirection → String
direction_text PortDirection.input = "input"
direction_text PortDirection.output = "output"
direction_text PortDirection.inner = "inner"

-- The slot at a port's place: out of range and null are not bound.
abbrev pub is_bound : Option (Option ℕ) → Bool
is_bound none = false
is_bound (some none) = false
is_bound (some (some q)) = true

module _ (to_string : ℕ → String) where
  abbrev port_text : PortInfo → ℕ → String → String
  port_text port i text =
      append (direction_text port.direction)
        (append " port[" (append (to_string i) (append "]" text)))

  -- One port of `ValidateDeclaredPorts`.
  unfoldable pub validate_port :
      ValidationReport → PortInfo → ℕ → Option (Option ℕ) → String → ValidationReport
  unfolding add_error direction_text
  validate_port report port i queue component =
      let named =
        if str_eq port.name ""
        then add_error report component (port_text port i " is missing a signal name")
        else report in
      let described =
        if str_eq port.description ""
        then add_error named component (port_text port i " is missing a description")
        else named in
      if is_bound queue
      then described
      else add_error described component (
          append (direction_text port.direction)
            (append " port '" (append port.name "' is not bound to a queue")))

  -- The loop, from the place `i` on.
  unfoldable pub validate_declared_ports :
      ValidationReport → List PortInfo → ℕ → List (Option ℕ) → String → ValidationReport
  unfolding validate_port
  validate_declared_ports report [] i queues component = report
  validate_declared_ports report (port ∷ ports) i queues component =
      validate_declared_ports (validate_port report port i (get_elem? queues i) component) ports
        (suc i) queues component

  module _ {S : Type 0} where
    -- `CollectValidationIssues` up to the loop over the submodules.
    unfoldable pub collect_own_issues : ValidationReport → ModuleState S → ValidationReport
    unfolding validate_declared_ports add_error
    collect_own_issues report s =
        let inputs = validate_declared_ports report s.input_ports 0 s.inputs s.module_name in
        let outputs = validate_declared_ports inputs s.output_ports 0 s.outputs s.module_name in
        let inners = validate_declared_ports outputs s.inner_ports 0 s.inners s.module_name in
        if s.require_io_contract && (length s.input_ports == 0 || length s.output_ports == 0)
        then add_error inners s.module_name "module must declare at least one input and one output"
        else inners

    unfoldable mutual
      unfolding collect_own_issues

      pub collect_validation_issues : ValidationReport → Module S → ValidationReport
      collect_validation_issues report (node s ms) =
          collect_submodule_issues (collect_own_issues report s) ms

      pub collect_submodule_issues : ValidationReport → Modules S → ValidationReport
      collect_submodule_issues report nil = report
      collect_submodule_issues report (cons m ms) =
          collect_submodule_issues (collect_validation_issues report m) ms

    -- `ValidateModel`: a registered pointer is null, `none`, or a module with what its
    -- `IsQueueBased` says.
    unfoldable pub validate_model :
        ValidationReport → List (Option (Bool × Module S)) → ValidationReport
    unfolding collect_validation_issues add_error
    validate_model report [] = report
    validate_model report (none ∷ ms) =
        validate_model (add_error report "sim" "registered null module") ms
    validate_model report (some (is_queue_based, node s subs) ∷ ms) =
        let checked =
          if is_queue_based
          then report
          else add_error report s.module_name
              "registered top-level object is not declared as SimQueue-based" in
        validate_model (collect_validation_issues checked (node s subs)) ms
