-- ===== src/Daemon/Remembered.antt =====
-- How long the replay guard remembers a delivery.
use mathlib.Core.List.{append_assoc}
use crust_core.Prelude.{
  ℕ, suc, ◌+◌, ◌≤◌, ◌<◌, ◌≡◌, refl, sym, ap, ◌∙◌, subst, inl, inr, Bool-cases, leb, true, false,
  List, [], ◌∷◌, ◌++◌, length, length-append, arith,
}
use crust_core.Prelude.Text.{Text, text_eq, text_eq_refl}
use crust_core.Daemon.Webhook.{
  max_seen_deliveries, ReplayGuard, new_guard, has_text, pop_oldest, make_room, push_back, accept,
}
use crust_core.Daemon.Replay.{
  accept_all, IsGuard, neither, in_tail, has_text-remove, not_queued, shorter, accept_all-IsGuard,
}

-- The guard remembers `id`, with at most `k` younger ones.
pub record IsRemembered (id : Text) (k : ℕ) (g : ReplayGuard) : Type 0 where
  pub older : List Text
  pub younger : List Text
  pub queued : g.order ≡ older ++ (id ∷ younger)
  pub once : has_text id older ≡ false
  pub held : has_text id g.set ≡ true
  pub few : length younger ≤ k

popped-IsRemembered :
    (id : Text) (k : ℕ) (older younger set : List Text)
    → has_text id older ≡ false
    → has_text id set ≡ true
    → length younger ≤ k
    → 4096 ≤ length (older ++ (id ∷ younger))
    → k < 4095
    → IsRemembered id k (pop_oldest (older ++ (id ∷ younger)) set)
unfolding has_text
popped-IsRemembered id k [] younger set n h f full small = absurd (omega arith)
popped-IsRemembered id k (old ∷ older) younger set n h f full small =
    let parts = neither (text_eq old id) (has_text id older) n in
    record {
      older = older;
      younger = younger;
      queued = refl;
      once = parts.1;
      held = has_text-remove id old set parts.0 h;
      few = f;
    }

is_full : (n : ℕ) → leb max_seen_deliveries n ≡ true → 4096 ≤ n
is_full n e = ground arith

make_room-IsRemembered :
    (id : Text) (k : ℕ) (g : ReplayGuard)
    → k < 4095
    → IsRemembered id k g
    → IsRemembered id k (make_room g)
make_room-IsRemembered id k g small r =
    elim (Bool-cases (leb max_seen_deliveries (length g.order))) [
      | inr t ↦ rw t r
      | inl t ↦ rw t (
          subst (λ order. IsRemembered id k (pop_oldest order g.set)) (sym r.queued)
            (popped-IsRemembered id k r.older r.younger g.set r.once r.held r.few
              (omega (arith, is_full (length g.order) t, ap length r.queued)) small))
    ]

push_back-IsRemembered :
    (id x : Text) (k : ℕ) (g : ReplayGuard)
    → IsRemembered id k g
    → IsRemembered id (suc k) (push_back x g)
unfolding has_text
push_back-IsRemembered id x k g r = record {
  older = r.older;
  younger = r.younger ++ (x ∷ []);
  queued =
      ap (λ order. order ++ (x ∷ [])) r.queued ∙ append_assoc r.older (id ∷ r.younger) (x ∷ []);
  once = r.once;
  held = in_tail (text_eq x id) (has_text id g.set) r.held;
  few = omega (arith, r.few, length-append r.younger (x ∷ []));
}

pub aged : (id : Text) (k : ℕ) (g : ReplayGuard) → IsRemembered id k g → IsRemembered id (suc k) g
aged id k g r = record {
  older = r.older;
  younger = r.younger;
  queued = r.queued;
  once = r.once;
  held = r.held;
  few = omega (arith, r.few);
}

pub accept-IsRemembered :
    (id x : Text) (k : ℕ) (g : ReplayGuard)
    → k < 4095
    → IsRemembered id k g
    → IsRemembered id (suc k) (accept x g).0
unfolding accept
accept-IsRemembered id x k g small r = elim (Bool-cases (has_text x g.set)) [
  | inl t ↦ rw t (aged id k g r)
  | inr t ↦
      rw t (push_back-IsRemembered id x k (make_room g) (make_room-IsRemembered id k g small r))
]

accept_all-held :
    (id : Text) (ids : List Text) (k : ℕ) (g : ReplayGuard)
    → k + length ids < 4096
    → IsRemembered id k g
    → has_text id (accept_all ids g).set ≡ true
unfolding accept_all
accept_all-held id [] k g small r = r.held
accept_all-held id (x ∷ ids) k g small r =
    accept_all-held id ids (suc k) (accept x g).0 (omega arith)
      (accept-IsRemembered id x k g (omega arith) r)

pub first_seen :
    (id : Text) (g : ReplayGuard)
    → IsGuard g
    → (accept id g).1 ≡ true
    → IsRemembered id 0 (accept id g).0
unfolding accept has_text
first_seen id g h e = elim (Bool-cases (has_text id g.set)) [
  | inl t ↦ ground (arith, rw t at e)
  | inr t ↦ rw t record {
    older = (make_room g).order;
    younger = [];
    queued = refl;
    once = shorter g id (not_queued id g h t);
    held = rw (text_eq_refl id) refl;
    few = omega arith;
  }
]

pub new_guard-IsGuard : IsGuard new_guard
new_guard-IsGuard = record { distinct = tt; synced = λ x m. m }

pub refused : (id : Text) (g : ReplayGuard) → has_text id g.set ≡ true → (accept id g).1 ≡ false
unfolding accept
refused id g h = rw h refl

-- A delivery that the guard accepted, after any deliveries, is refused when it comes again, as long
-- as fewer than 4096 deliveries were offered in between.
pub accept_replayed :
    (before between : List Text) (id : Text)
    → (accept id (accept_all before new_guard)).1 ≡ true
    → length between < 4096
    → (accept id (accept_all between (accept id (accept_all before new_guard)).0)).1 ≡ false
accept_replayed before between id e few =
    let g = accept_all before new_guard in
    let h = accept_all-IsGuard before new_guard new_guard-IsGuard in
    refused id (accept_all between (accept id g).0)
      (accept_all-held id between 0 (accept id g).0 (omega arith) (first_seen id g h e))
