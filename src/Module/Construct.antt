-- ===== src/Module/Construct.antt =====
-- How a tree of modules is built up, include/linx/model/module.hpp: `CreateOwnedQueue`,
-- `AddSubmodule` and the connections of a child.
use linx_model.Base.{
  ℕ, zero, suc, ◌≤◌, ◌<◌, ◌≡◌, sym, subst, Option, some, List, [], ◌∷◌, ◌++◌, ◌>>=◌, >>=-eq-some,
  ltb, length, length-append, get_elem?, arith, Bool-cases, inl, inr,
}
use linx_model.SimQueue.{SimQueue, make}
use linx_model.SimQueue.Invariant.{IsValid}
use linx_model.Module.{PortDirection, Module, node, Modules, nil, cons, ModuleState, Heap}
use linx_model.Module.Ports.{bind_port, bind}
use linx_model.Module.Total.{IsHeap, Within, OwnsWithin, AllOwnWithin}

abbrev pub append_module : {S : Type 0} → Modules S → Module S → Modules S
append_module nil m = cons m nil
append_module (cons x xs) m = cons x (append_module xs m)

abbrev pub with_state : {S : Type 0} → (ModuleState S → ModuleState S) → Module S → Module S
with_state f (node s ms) = node (f s) ms

-- A new queue at the end of the heap; `none` is a failed assertion of its constructor.
unfoldable pub create_owned_queue :
    {P S : Type 0} → ℕ → ℕ → Module S → Heap P → Option (Module S × Heap P)
unfolding make
create_owned_queue max_size latency m h = do
  q ← make max_size latency
  some
      (with_state (λ s. record s { owned_queues = s.owned_queues ++ length h ∷ [] }) m, h ++ q ∷ [])

-- `AddSubmodule` of a pointer that is not null.
unfoldable pub add_submodule : {S : Type 0} → Module S → Module S → Module S
add_submodule (node s ms) submodule = node s (append_module ms submodule)

-- `ConnectInput`, `ConnectOutput` and `ConnectInner` of a child.
unfoldable pub connect : {S : Type 0} → PortDirection → Module S → ℕ → Option ℕ → Option (Module S)
unfolding bind
connect d (node s ms) idx queue = do s' ← bind d s idx queue; some (node s' ms)

-- A call on the root of a tree.
pub data ConstructCall (S : Type 0) : Type 0 where
  queue_call : ℕ → ℕ → ConstructCall S
  submodule_call : Module S → ConstructCall S
  connect_call : PortDirection → ℕ → Option ℕ → ConstructCall S

module _ {P S : Type 0} where
  unfoldable pub construct : ConstructCall S → Module S → Heap P → Option (Module S × Heap P)
  unfolding create_owned_queue add_submodule connect
  construct (queue_call max_size latency) m h = create_owned_queue max_size latency m h
  construct (submodule_call submodule) m h = some (add_submodule m submodule, h)
  construct (connect_call d idx queue) m h = do m' ← connect d m idx queue; some (m', h)

  unfoldable pub constructs :
      List (ConstructCall S) → Module S → Heap P → Option (Module S × Heap P)
  unfolding construct
  constructs [] m h = some (m, h)
  constructs (c ∷ cs) m h = do (m', h') ← construct c m h; constructs cs m' h'

Within-le : (n k : ℕ) (qs : List ℕ) → n ≤ k → Within n qs → Within k qs
Within-le n k [] le w = tt
Within-le n k (q ∷ qs) le (w, ws) = (omega (arith, le, w), Within-le n k qs le ws)

Within-append : (n : ℕ) (qs : List ℕ) (q : ℕ) → Within n qs → q < n → Within n (qs ++ q ∷ [])
Within-append n [] q w lt = (lt, tt)
Within-append n (p ∷ qs) q (w, ws) lt = (w, Within-append n qs q ws lt)

mutual
  unfolding OwnsWithin

  OwnsWithin-le : {S : Type 0} (n k : ℕ) (m : Module S) → n ≤ k → OwnsWithin n m → OwnsWithin k m
  OwnsWithin-le n k (node s ms) le (w, ws) =
      (Within-le n k s.owned_queues le w, AllOwnWithin-le n k ms le ws)

  AllOwnWithin-le :
      {S : Type 0} (n k : ℕ) (ms : Modules S) → n ≤ k → AllOwnWithin n ms → AllOwnWithin k ms
  AllOwnWithin-le n k nil le w = tt
  AllOwnWithin-le n k (cons m ms) le (w, ws) =
      (OwnsWithin-le n k m le w, AllOwnWithin-le n k ms le ws)

AllOwnWithin-append :
    {S : Type 0} (n : ℕ) (ms : Modules S) (m : Module S)
    → AllOwnWithin n ms
    → OwnsWithin n m
    → AllOwnWithin n (append_module ms m)
unfolding AllOwnWithin
AllOwnWithin-append n nil m w v = (v, tt)
AllOwnWithin-append n (cons x xs) m (w, ws) v = (w, AllOwnWithin-append n xs m ws v)

make-IsValid :
    {P : Type 0} (max_size latency : ℕ) (q : SimQueue P)
    → make max_size latency ≡ some q
    → IsValid q
unfolding make
make-IsValid max_size latency q e = elim (Bool-cases (ltb 0 max_size)) [
  | inr none_left ↦ absurd (ground (arith, e, none_left))
  | inl room ↦ record {
    paired = ground (arith, e, room);
    bounded = ground (arith, e, room);
    positive = ground (arith, e, room);
  }
]

module _ {P : Type 0} where
  get_elem?-push :
      (h : Heap P) (q c : SimQueue P) (i : ℕ)
      → ((j : ℕ) (d : SimQueue P) → get_elem? h j ≡ some d → IsValid d)
      → IsValid q
      → get_elem? (h ++ q ∷ []) i ≡ some c
      → IsValid c
  get_elem?-push [] q c zero all v e = subst IsValid (ground (arith, e)) v
  get_elem?-push [] q c (suc i) all v e = absurd (ground (arith, e))
  get_elem?-push (x ∷ xs) q c zero all v e = all 0 c e
  get_elem?-push (x ∷ xs) q c (suc i) all v e =
      get_elem?-push xs q c i (λ j d f. all (suc j) d f) v e

  push-IsHeap :
      (n : ℕ) (h : Heap P) (q : SimQueue P) → IsHeap n h → IsValid q → IsHeap (suc n) (h ++ q ∷ [])
  push-IsHeap n h q v w = record {
    size = omega (arith, length-append {0} h (q ∷ []), v.size);
    valid = λ i c e. get_elem?-push h q c i v.valid w e;
  }

bind-owned :
    {S : Type 0} (d : PortDirection) (s s' : ModuleState S) (idx : ℕ) (queue : Option ℕ)
    → bind d s idx queue ≡ some s'
    → s'.owned_queues ≡ s.owned_queues
unfolding bind
bind-owned PortDirection.input s s' idx queue e =
    let (_, _, e) = >>=-eq-some (bind_port s idx queue s.inputs) _ e in ground (arith, e)
bind-owned PortDirection.output s s' idx queue e =
    let (_, _, e) = >>=-eq-some (bind_port s idx queue s.outputs) _ e in ground (arith, e)
bind-owned PortDirection.inner s s' idx queue e =
    let (_, _, e) = >>=-eq-some (bind_port s idx queue s.inners) _ e in ground (arith, e)

-- The submodules that the calls add own queues of a heap of `n`.
abbrev ChildrenWithin : {S : Type 0} → ℕ → List (ConstructCall S) → Type 0
ChildrenWithin n [] = Unit
ChildrenWithin n (queue_call max_size latency ∷ cs) = ChildrenWithin n cs
ChildrenWithin n (submodule_call m ∷ cs) = OwnsWithin n m × ChildrenWithin n cs
ChildrenWithin n (connect_call d idx queue ∷ cs) = ChildrenWithin n cs

ChildrenWithin-suc :
    {S : Type 0} (n : ℕ) (cs : List (ConstructCall S))
    → ChildrenWithin n cs
    → ChildrenWithin (suc n) cs
ChildrenWithin-suc n [] w = tt
ChildrenWithin-suc n (queue_call a b ∷ cs) w = ChildrenWithin-suc n cs w
ChildrenWithin-suc n (submodule_call m ∷ cs) (w, ws) =
    (OwnsWithin-le n (suc n) m (omega arith) w, ChildrenWithin-suc n cs ws)
ChildrenWithin-suc n (connect_call d i q ∷ cs) w = ChildrenWithin-suc n cs w

module _ {S : Type 0} where
  connect-Owns :
      (n : ℕ) (d : PortDirection) (m m' : Module S) (idx : ℕ) (queue : Option ℕ)
      → OwnsWithin n m
      → connect d m idx queue ≡ some m'
      → OwnsWithin n m'
  unfolding connect OwnsWithin
  connect-Owns n d (node s ms) m' idx queue (w, ws) e =
      let (s', bound, e) = >>=-eq-some (bind d s idx queue) _ e in
      let state : node s' ms ≡ m' = ground (arith, e) in
      subst (OwnsWithin n) state (subst (Within n) (sym (bind-owned d s s' idx queue bound)) w, ws)

  add-Owns :
      (n : ℕ) (m submodule : Module S)
      → OwnsWithin n m
      → OwnsWithin n submodule
      → OwnsWithin n (add_submodule m submodule)
  unfolding add_submodule OwnsWithin
  add-Owns n (node s ms) submodule (w, ws) v = (w, AllOwnWithin-append n ms submodule ws v)

module _ {P S : Type 0} where
  create-Owns :
      (n max_size latency : ℕ) (m m' : Module S) (h h' : Heap P)
      → IsHeap n h
      → OwnsWithin n m
      → create_owned_queue max_size latency m h ≡ some (m', h')
      → IsHeap (suc n) h' × OwnsWithin (suc n) m'
  unfolding create_owned_queue OwnsWithin
  create-Owns n max_size latency (node s ms) m' h h' v (w, ws) e =
      let (q, made, e) = >>=-eq-some (make max_size latency) _ e in
      let heap : h ++ q ∷ [] ≡ h' = ground (arith, e) in
      let state : node (record s { owned_queues = s.owned_queues ++ length h ∷ [] }) ms ≡ m' =
        ground (arith, e) in
      (
        subst (IsHeap (suc n)) heap (push-IsHeap n h q v (make-IsValid max_size latency q made)),
        subst (OwnsWithin (suc n)) state (
          Within-append (suc n) s.owned_queues (length h)
              (Within-le n (suc n) s.owned_queues (omega arith) w) (omega (arith, v.size)),
          AllOwnWithin-le n (suc n) ms (omega arith) ws,
        ),
      )

  -- Building up a tree by calls that fail no assertion leaves a heap of valid queues, at least as
  -- many as before, and a tree each of whose modules owns queues of the heap, as a cycle of the
  -- simulation asks: the start and the submodules that are added are such.
  constructs-OwnsWithin :
      (n : ℕ) (cs : List (ConstructCall S)) (m m' : Module S) (h h' : Heap P)
      → IsHeap n h
      → OwnsWithin n m
      → ChildrenWithin n cs
      → constructs cs m h ≡ some (m', h')
      → (k : ℕ) × (n ≤ k) × IsHeap k h' × OwnsWithin k m'
  unfolding constructs construct
  constructs-OwnsWithin n [] m m' h h' v w ws e = (
    n,
    omega arith,
    subst (IsHeap n) (ground (arith, e)) v,
    subst (OwnsWithin n) (ground (arith, e)) w,
  )
  constructs-OwnsWithin n (queue_call a b ∷ cs) m m' h h' v w ws e =
      let ((m₁, h₁), first, e) = >>=-eq-some (create_owned_queue a b m h) _ e in
      let (v₁, w₁) = create-Owns n a b m m₁ h h₁ v w first in
      let (k, le, v', w') =
        constructs-OwnsWithin (suc n) cs m₁ m' h₁ h' v₁ w₁ (ChildrenWithin-suc n cs ws) e in
      (k, omega (arith, le), v', w')
  constructs-OwnsWithin n (submodule_call c ∷ cs) m m' h h' v w (wc, ws) e =
      constructs-OwnsWithin n cs (add_submodule m c) m' h h' v (add-Owns n m c w wc) ws e
  constructs-OwnsWithin n (connect_call d i q ∷ cs) m m' h h' v w ws e =
      let ((m₁, h₁), first, e) = >>=-eq-some (connect d m i q >>= λ m₂. some (m₂, h)) _ e in
      let (m₂, bound, same) = >>=-eq-some (connect d m i q) _ first in
      let e₁ : m₂ ≡ m₁ = ground (arith, same) in
      let e₂ : h ≡ h₁ = ground (arith, same) in
      constructs-OwnsWithin n cs m₁ m' h₁ h' (subst (IsHeap n) e₂ v)
        (subst (OwnsWithin n) e₁ (connect-Owns n d m m₂ i q w bound)) ws e
