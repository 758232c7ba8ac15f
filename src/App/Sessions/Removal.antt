-- ===== src/App/Sessions/Removal.antt =====
-- What removing a session does to the ids, the bus ids and the counts of the others.
use usbip_go.Prelude.{
  ℕ, ◌+◌, ◌≤◌, ◌≡◌, refl, ap, inl, inr, false, none, some, List, [], ◌∷◌, ◌==◌, if◌then◌else◌,
  Bool-cases, arith, subst, ==→eq, length,
}
use usbip_go.Kernel.Text.{text_eq}
use usbip_go.App.Sessions.{SessionHandle, remove_id, lookup, is_bus_id_taken}
use usbip_go.App.Sessions.Counts.{count_peer}

-- No two sessions share an id, and no two a bus id.
abbrev pub HasDistinctIds : List SessionHandle → Type 0
HasDistinctIds [] = Unit {0}
HasDistinctIds (h ∷ hs) = (lookup h.session.id hs ≡ none) × HasDistinctIds hs

abbrev pub HasDistinctBusIds : List SessionHandle → Type 0
HasDistinctBusIds [] = Unit {0}
HasDistinctBusIds (h ∷ hs) = (is_bus_id_taken h.session.bus_id hs ≡ false) × HasDistinctBusIds hs

some_not_none : (x : SessionHandle) → some x ≡ none → ⊥
some_not_none x h = cc

some_same : (x h : SessionHandle) → some x ≡ some h → x ≡ h
some_same x h e = cc

pub remove_id-absent :
    (id : ℕ) (hs : List SessionHandle) → lookup id hs ≡ none → remove_id id hs ≡ hs
remove_id-absent id [] h = refl
remove_id-absent id (x ∷ hs) h = elim (Bool-cases (x.session.id == id)) [
  | inl q ↦ absurd (some_not_none x (subst (λ b. (if b then some x else lookup id hs) ≡ none) q h))
  | inr q ↦ rw q (
      ap (◌∷◌ x)
        (remove_id-absent id hs (subst (λ b. (if b then some x else lookup id hs) ≡ none) q h)))
]

pub lookup-remove_id :
    (i id : ℕ) (hs : List SessionHandle) → lookup i hs ≡ none → lookup i (remove_id id hs) ≡ none
lookup-remove_id i id [] h = refl
lookup-remove_id i id (x ∷ hs) h =
    let rest = lookup-remove_id i id hs in
    elim (Bool-cases (x.session.id == id)) [
      | inl q ↦ rw q (rest (ground arith))
      | inr q ↦ rw q (ground arith)
    ]

pub remove_id-HasDistinctIds :
    (id : ℕ) (hs : List SessionHandle) → HasDistinctIds hs → HasDistinctIds (remove_id id hs)
remove_id-HasDistinctIds id [] h = tt
remove_id-HasDistinctIds id (x ∷ hs) h =
    let rest = remove_id-HasDistinctIds id hs h.1 in
    elim (Bool-cases (x.session.id == id)) [
      | inl q ↦ rw q rest
      | inr q ↦ rw q (lookup-remove_id x.session.id id hs h.0, rest)
    ]

pub is_bus_id_taken-remove_id :
    (b : List ℕ) (id : ℕ) (hs : List SessionHandle)
    → is_bus_id_taken b hs ≡ false
    → is_bus_id_taken b (remove_id id hs) ≡ false
unfolding is_bus_id_taken
is_bus_id_taken-remove_id b id [] h = refl
is_bus_id_taken-remove_id b id (x ∷ hs) h =
    let rest = is_bus_id_taken-remove_id b id hs (ground arith) in
    elim (Bool-cases (x.session.id == id)) [ inl q ↦ rw q rest | inr q ↦ rw q (ground arith) ]

pub remove_id-HasDistinctBusIds :
    (id : ℕ) (hs : List SessionHandle) → HasDistinctBusIds hs → HasDistinctBusIds (remove_id id hs)
remove_id-HasDistinctBusIds id [] h = tt
remove_id-HasDistinctBusIds id (x ∷ hs) h =
    let rest = remove_id-HasDistinctBusIds id hs h.1 in
    elim (Bool-cases (x.session.id == id)) [
      | inl q ↦ rw q rest
      | inr q ↦ rw q (is_bus_id_taken-remove_id x.session.bus_id id hs h.0, rest)
    ]

pub length-remove_id : (id : ℕ) (hs : List SessionHandle) → length (remove_id id hs) ≤ length hs
length-remove_id id [] = omega arith
length-remove_id id (x ∷ hs) = let rest = length-remove_id id hs in ground arith

pub count_peer-remove_le :
    (key : List ℕ) (id : ℕ) (hs : List SessionHandle)
    → count_peer key (remove_id id hs) ≤ count_peer key hs
unfolding count_peer
count_peer-remove_le key id [] = omega arith
count_peer-remove_le key id (x ∷ hs) =
    let rest = count_peer-remove_le key id hs in
    elim (Bool-cases (x.session.id == id)) [
      | inl q ↦ rw q (ground arith)
      | inr q ↦ rw q (ground arith)
    ]

-- Removing a session takes one off the count of its peer.
pub count_peer-remove_id :
    (key : List ℕ) (id : ℕ) (hs : List SessionHandle) {h : SessionHandle}
    → HasDistinctIds hs
    → lookup id hs ≡ some h
    → count_peer key hs
      ≡ count_peer key (remove_id id hs) + (if text_eq h.peer_key key then 1 else 0)
unfolding count_peer
count_peer-remove_id key id [] d e = cc
count_peer-remove_id key id (x ∷ hs) {h} d e = elim (Bool-cases (x.session.id == id)) [
  | inl q ↦
      let same : x ≡ h =
        some_same x h (subst (λ b. (if b then some x else lookup id hs) ≡ some h) q e) in
      let peer = ap (λ (y : SessionHandle). text_eq y.peer_key key) same in
      let gone =
        remove_id-absent id hs (subst (λ i. lookup i hs ≡ none) (==→eq x.session.id id q) d.0) in
      rw (q, gone) (ground arith)
  | inr q ↦
      let rest =
        count_peer-remove_id key id hs d.1
          (subst (λ b. (if b then some x else lookup id hs) ≡ some h) q e) in
      rw q (ground arith)
]
