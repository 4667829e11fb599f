-- ===== src/Daemon/Replay.antt =====
-- The replay guard: a delivery that was accepted is refused as long as it is remembered.
use crust_core.Prelude.{
  ◌≡◌, refl, sym, ◌∙◌, subst, ◌⊎◌, inl, inr, Bool-cases, ◌||◌, leb, Bool, true, false, List, [],
  ◌∷◌, ◌++◌, length, arith,
}
use crust_core.Prelude.Text.{Text, text_eq, text_eq_sound, text_eq_refl}
use crust_core.Daemon.Webhook.{
  max_seen_deliveries, ReplayGuard, has_text, remove, pop_oldest, make_room, push_back, accept,
}

-- `accept`, one identifier after the other
unfoldable pub accept_all : List Text → ReplayGuard → ReplayGuard
accept_all [] g = g
accept_all (id ∷ ids) g = accept_all ids (accept id g).0

abbrev pub Distinct : List Text → Type 0
Distinct [] = Unit {0}
Distinct (x ∷ xs) = (has_text x xs ≡ false) × Distinct xs

-- The queue repeats nothing, and the set holds what the queue holds.
pub record IsGuard (g : ReplayGuard) : Type 0 where
  pub distinct : Distinct g.order
  pub synced : (x : Text) → has_text x g.order ≡ true → has_text x g.set ≡ true

pub has_text-append :
    (x y : Text) (xs : List Text) → has_text x (xs ++ (y ∷ [])) ≡ (has_text x xs || text_eq y x)
unfolding has_text
has_text-append x y [] = ground arith
has_text-append x y (z ∷ xs) = grind (arith, has_text-append x y xs)

pub has_text-remove :
    (x old : Text) (set : List Text)
    → text_eq old x ≡ false
    → has_text x set ≡ true
    → has_text x (remove old set) ≡ true
unfolding has_text remove
has_text-remove x old [] e h = ground arith
has_text-remove x old (y ∷ set) e h = elim (Bool-cases (text_eq y old)) [
  | inl t ↦
      let other = subst (λ z. text_eq z x ≡ false) (sym (text_eq_sound y old t)) e in
      rw t (has_text-remove x old set e (rw other at h))
  | inr t ↦ elim (Bool-cases (text_eq y x)) [
    | inl u ↦ rw (t, u) refl
    | inr u ↦ rw (t, u) (has_text-remove x old set e (rw u at h))
  ]
]

text_eq_sym : (a b : Text) → text_eq a b ≡ false → text_eq b a ≡ false
text_eq_sym a b e = elim (Bool-cases (text_eq b a)) [
  | inr f ↦ f
  | inl t ↦ ground (arith, e, text_eq_refl a, rw (text_eq_sound b a t) at e)
]

pub neither : (a b : Bool) → (a || b) ≡ false → (a ≡ false) × (b ≡ false)
neither a b e = ground arith

either : (a b : Bool) → (a || b) ≡ true → (a ≡ true) ⊎ (b ≡ true)
either a b e = ground arith

Distinct-append :
    (y : Text) (xs : List Text) → Distinct xs → has_text y xs ≡ false → Distinct (xs ++ (y ∷ []))
unfolding has_text
Distinct-append y [] d n = (refl, tt)
Distinct-append y (x ∷ xs) d n =
    let parts = neither (text_eq x y) (has_text y xs) n in
    (
      has_text-append x y xs ∙ rw (d.0, text_eq_sym x y parts.0) refl,
      Distinct-append y xs d.1 parts.1,
    )

pub in_tail : (a b : Bool) → b ≡ true → (a || b) ≡ true
in_tail a b e = ground arith

oldest_gone :
    (old x : Text) (rest : List Text)
    → has_text old rest ≡ false
    → has_text x rest ≡ true
    → text_eq old x ≡ false
oldest_gone old x rest n m = elim (Bool-cases (text_eq old x)) [
  | inr t ↦ t
  | inl t ↦ ground (arith, n, subst (λ y. has_text y rest ≡ true) (sym (text_eq_sound old x t)) m)
]

make_room-IsGuard : (g : ReplayGuard) → IsGuard g → IsGuard (make_room g)
unfolding has_text
make_room-IsGuard g h = elim (Bool-cases (leb max_seen_deliveries (length g.order))) [
  | inr t ↦ rw t h
  | inl t ↦ rw t (popped g.order g.set h.distinct h.synced)
]
  where
    popped :
        (order set : List Text)
        → Distinct order
        → ((x : Text) → has_text x order ≡ true → has_text x set ≡ true)
        → IsGuard (pop_oldest order set)
    popped [] set d s = record { distinct = d; synced = s }
    popped (old ∷ rest) set d s = record {
      distinct = d.1;
      synced = λ x m.
          has_text-remove x old set (oldest_gone old x rest d.0 m)
            (s x (in_tail (text_eq old x) (has_text x rest) m));
    }

push_back-IsGuard :
    (id : Text) (g : ReplayGuard)
    → IsGuard g
    → has_text id g.order ≡ false
    → IsGuard (push_back id g)
unfolding has_text
push_back-IsGuard id g h n = record {
  distinct = Distinct-append id g.order h.distinct n;
  synced = λ x m.
      elim (either (has_text x g.order) (text_eq id x) (sym (has_text-append x id g.order) ∙ m)) [
        | inl o ↦ in_tail (text_eq id x) (has_text x g.set) (h.synced x o)
        | inr e ↦ rw e refl
      ];
}

pub not_queued :
    (id : Text) (g : ReplayGuard)
    → IsGuard g
    → has_text id g.set ≡ false
    → has_text id g.order ≡ false
not_queued id g h n = elim (Bool-cases (has_text id g.order)) [
  | inr t ↦ t
  | inl t ↦ ground (arith, n, h.synced id t)
]

pub shorter :
    (g : ReplayGuard) (id : Text)
    → has_text id g.order ≡ false
    → has_text id (make_room g).order ≡ false
unfolding has_text
shorter g id n = elim (Bool-cases (leb max_seen_deliveries (length g.order))) [
  | inr t ↦ rw t n
  | inl t ↦ rw t (popped g.order g.set n)
]
  where
    popped :
        (order set : List Text)
        → has_text id order ≡ false
        → has_text id (pop_oldest order set).order ≡ false
    popped [] set n = n
    popped (old ∷ rest) set n = (neither (text_eq old id) (has_text id rest) n).1

pub accept-IsGuard : (id : Text) (g : ReplayGuard) → IsGuard g → IsGuard (accept id g).0
unfolding accept
accept-IsGuard id g h = elim (Bool-cases (has_text id g.set)) [
  | inl t ↦ rw t h
  | inr t ↦ rw t (
      push_back-IsGuard id (make_room g) (make_room-IsGuard g h)
        (shorter g id (not_queued id g h t)))
]

pub accept_all-IsGuard :
    (ids : List Text) (g : ReplayGuard) → IsGuard g → IsGuard (accept_all ids g)
unfolding accept_all
accept_all-IsGuard [] g h = h
accept_all-IsGuard (id ∷ ids) g h = accept_all-IsGuard ids (accept id g).0 (accept-IsGuard id g h)
