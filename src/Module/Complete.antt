-- ===== src/Module/Complete.antt =====
-- What the validation of src/validation.cpp and include/linx/model/module.hpp accepts.
use Prim.Native.String.{String}
use text.Mathlib.Text.{◌==◌ as str_eq}
use linx_model.Base.{
  ℕ, suc, Bool, true, false, not, ◌||◌, ◌&&◌, ◌≡◌, Option, none, some, List, [], ◌∷◌, ◌++◌,
  if◌then◌else◌, length, get_elem?, ◌==◌, arith, refl, ap, ◌∙◌,
}
use linx_model.Module.{PortInfo, ModuleState, Module, node, Modules, nil, cons}
use linx_model.Module.Issues.{
  ValidationReport, add_error, has_errors, is_bound, validate_port, validate_declared_ports,
  collect_own_issues, collect_validation_issues, collect_submodule_issues, validate_model,
}

-- The reference: a port is complete if it has a name and a description and is bound; a module is
-- if its ports and submodules are, and it has an input and an output where it needs them.
abbrev pub is_port_complete : PortInfo → Option (Option ℕ) → Bool
is_port_complete port queue =
    not (str_eq port.name "") && not (str_eq port.description "") && is_bound queue

abbrev pub are_ports_complete : List PortInfo → ℕ → List (Option ℕ) → Bool
are_ports_complete [] i queues = true
are_ports_complete (port ∷ ports) i queues =
    is_port_complete port (get_elem? queues i) && are_ports_complete ports (suc i) queues

module _ {S : Type 0} where
  abbrev pub is_own_complete : ModuleState S → Bool
  is_own_complete s =
      are_ports_complete s.input_ports 0 s.inputs
      && are_ports_complete s.output_ports 0 s.outputs
      && are_ports_complete s.inner_ports 0 s.inners
      && (not s.require_io_contract
          || (not (length s.input_ports == 0) && not (length s.output_ports == 0)))

  unfoldable mutual
    pub is_complete : Module S → Bool
    is_complete (node s ms) = is_own_complete s && are_complete ms

    pub are_complete : Modules S → Bool
    are_complete nil = true
    are_complete (cons m ms) = is_complete m && are_complete ms

  abbrev pub all_complete : List (Option (Bool × Module S)) → Bool
  all_complete [] = true
  all_complete (none ∷ ms) = false
  all_complete (some (is_queue_based, m) ∷ ms) = is_queue_based && is_complete m && all_complete ms

has_errors-append : (r q : ValidationReport) → has_errors (r ++ q) ≡ (has_errors r || has_errors q)
unfolding has_errors
has_errors-append [] q = refl
has_errors-append (i ∷ r) q = ground (arith, has_errors-append r q)

has_errors-add_error : (r : ValidationReport) (c m : String) → has_errors (add_error r c m) ≡ true
unfolding add_error has_errors
has_errors-add_error [] c m = refl
has_errors-add_error (i ∷ r) c m = ground (arith, has_errors-add_error r c m)

has_errors-if :
    (b : Bool) (r : ValidationReport) (c m : String)
    → has_errors (if b then add_error r c m else r) ≡ (has_errors r || b)
has_errors-if true r c m = ground (arith, has_errors-add_error r c m)
has_errors-if false r c m = ground arith

has_errors-unless :
    (b : Bool) (r : ValidationReport) (c m : String)
    → has_errors (if b then r else add_error r c m) ≡ (has_errors r || not b)
has_errors-unless true r c m = ground arith
has_errors-unless false r c m = ground (arith, has_errors-add_error r c m)

module _ (to_string : ℕ → String) where
  has_errors-port :
      (r : ValidationReport) (port : PortInfo) (i : ℕ) (queue : Option (Option ℕ)) (c : String)
      → has_errors (validate_port to_string r port i queue c)
        ≡ (has_errors r || not (is_port_complete port queue))
  unfolding validate_port
  has_errors-port r port i queue c =
      let unnamed = str_eq port.name "" in
      let undescribed = str_eq port.description "" in
      has_errors-unless (is_bound queue) _ c _
      ∙ ap (λ x. x || not (is_bound queue))
          (has_errors-if undescribed _ c _
            ∙ ap (λ x. x || undescribed) (has_errors-if unnamed r c _))
      ∙ ground arith

  has_errors-ports :
      (r : ValidationReport) (ports : List PortInfo) (i : ℕ) (queues : List (Option ℕ)) (c : String)
      → has_errors (validate_declared_ports to_string r ports i queues c)
        ≡ (has_errors r || not (are_ports_complete ports i queues))
  unfolding validate_declared_ports
  has_errors-ports r [] i queues c = ground arith
  has_errors-ports r (port ∷ ports) i queues c =
      let q = get_elem? queues i in
      ground (
        arith,
        has_errors-port r port i q c,
        has_errors-ports (validate_port to_string r port i q c) ports (suc i) queues c,
      )

  module _ {S : Type 0} where
    has_errors-own :
        (r : ValidationReport) (s : ModuleState S)
        → has_errors (collect_own_issues to_string r s) ≡ (has_errors r || not (is_own_complete s))
    unfolding collect_own_issues
    has_errors-own r s =
        let inputs = validate_declared_ports to_string r s.input_ports 0 s.inputs s.module_name in
        let outputs =
          validate_declared_ports to_string inputs s.output_ports 0 s.outputs s.module_name in
        let lonely =
          s.require_io_contract && (length s.input_ports == 0 || length s.output_ports == 0) in
        has_errors-if lonely _ s.module_name _
        ∙ ground (
          arith,
          has_errors-ports r s.input_ports 0 s.inputs s.module_name,
          has_errors-ports inputs s.output_ports 0 s.outputs s.module_name,
          has_errors-ports outputs s.inner_ports 0 s.inners s.module_name,
        )

    mutual
      unfolding collect_validation_issues is_complete

      has_errors-module :
          (r : ValidationReport) (m : Module S)
          → has_errors (collect_validation_issues to_string r m)
            ≡ (has_errors r || not (is_complete m))
      has_errors-module r (node s ms) =
          ground
            (arith, has_errors-own r s, has_errors-submodules (collect_own_issues to_string r s) ms)

      has_errors-submodules :
          (r : ValidationReport) (ms : Modules S)
          → has_errors (collect_submodule_issues to_string r ms)
            ≡ (has_errors r || not (are_complete ms))
      has_errors-submodules r nil = ground arith
      has_errors-submodules r (cons m ms) = ground (
        arith,
        has_errors-module r m,
        has_errors-submodules (collect_validation_issues to_string r m) ms,
      )

    -- The report of `ValidateModel` has an error exactly if the one it started from had one, or a
    -- null module or one that is not queue-based is registered, or some module of the trees is not
    -- complete: a port that has no name, no description or no queue, or an input or output missing
    -- where the module requires both.
    pub has_errors-validate_model :
        (r : ValidationReport) (ms : List (Option (Bool × Module S)))
        → has_errors (validate_model to_string r ms) ≡ (has_errors r || not (all_complete ms))
    unfolding validate_model
    has_errors-validate_model r [] = ground arith
    has_errors-validate_model r (none ∷ ms) = ground (
      arith,
      has_errors-add_error r "sim" "registered null module",
      has_errors-validate_model (add_error r "sim" "registered null module") ms,
    )
    has_errors-validate_model r (some (is_queue_based, node s subs) ∷ ms) =
        let text : String = "registered top-level object is not declared as SimQueue-based" in
        let checked = if is_queue_based then r else add_error r s.module_name text in
        ground (
          arith,
          has_errors-unless is_queue_based r s.module_name text,
          has_errors-module checked (node s subs),
          has_errors-validate_model (collect_validation_issues to_string checked (node s subs)) ms,
        )
