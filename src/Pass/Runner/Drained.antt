-- ===== src/Pass/Runner/Drained.antt =====
-- src/pass/runner.rs: no call of the runner waits for ever.
use cosmic_pass.Base.{
  ℕ, zero, suc, ◌+◌, ◌*◌, ◌≤◌, ◌<◌, ◌≡◌, refl, Bool, true, false, ◌||◌, some, arith, ◌⊎◌, inl, inr,
}
use cosmic_pass.Pass.Runner.Gates.{
  Holder, nobody, at_work, returning, Gates, Event, admitted, locked, guarded_ended, at_large_ended,
  guard_dropped, hold, enter, take, Reached, then_taken,
}
use cosmic_pass.Pass.Runner.Bounded.{IsCounted, Reached-IsCounted}

-- A call is let in, or its process comes back, or it lets go of the guard.
abbrev pub moves_on : Event → Bool
moves_on admitted = true
moves_on locked = true
moves_on (guarded_ended came_back) = true
moves_on (at_large_ended came_back) = true
moves_on guard_dropped = true
moves_on _ = false

abbrev effort : Holder → ℕ
effort nobody = 0
effort at_work = 2
effort returning = 1

-- What is left to do: a call has at most four moves ahead of it.
abbrev pub load : Gates → ℕ
load g = 4 * g.unadmitted + 3 * g.unguarded + effort g.guard + 2 * g.at_large

-- A number of moves alone, with no new call and no cancellation.
pub data Moves (g : Gates) : ℕ → Gates → Type 0 where
  none_made : Moves g 0 g
  then_moved :
      {n : ℕ} {h k : Gates} (e : Event)
      → Moves g n h
      → moves_on e ≡ true
      → take e h ≡ some k
      → Moves g (suc n) k

load-take : (e : Event) (g h : Gates) → moves_on e ≡ true → take e g ≡ some h → load h < load g
unfolding take
load-take _ g h m s = ground arith

ℕ-cases : (n : ℕ) → (n ≡ 0) ⊎ ((k : ℕ) × (n ≡ suc k))
ℕ-cases zero = inl refl
ℕ-cases (suc n) = inr (n, refl)

not_zero : (n : ℕ) → 0 < n → (k : ℕ) × (n ≡ suc k)
not_zero zero h = absurd (omega arith)
not_zero (suc n) h = (n, refl)

abbrev Ahead : Gates → Type 0
Ahead g = (e : Event) × (h : Gates) × (moves_on e ≡ true) × (take e g ≡ some h)

-- With nobody at work: a call takes the guard, or one is let in, for which there is a permit.
move_in : (g : Gates) → IsCounted g → g.guard ≡ nobody → g.at_large ≡ 0 → 0 < load g → Ahead g
unfolding take
move_in g v h a l = elim (ℕ-cases g.unguarded) [
  | inr (k, e) ↦ (locked, hold g.warm (record g { unguarded = k }), refl, ground arith)
  | inl e ↦
      let (k, waits) = not_zero g.unadmitted (ground arith) in
      let (j, permit) = not_zero g.permits (ground (arith, v.counted)) in
      (admitted, enter g.warm (record g { permits = j; unadmitted = k }), refl, ground arith)
]

-- With nobody at the guard: a process without it ends, or a call takes it, or a call is let in.
move_unheld : (g : Gates) → IsCounted g → g.guard ≡ nobody → 0 < load g → Ahead g
unfolding take
move_unheld g v h l = elim (ℕ-cases g.at_large) [
  | inr (k, e) ↦ (
    at_large_ended true,
    record g { at_large = k; permits = suc g.permits; warm = g.warm || true },
    refl,
    ground arith,
  )
  | inl e ↦ move_in g v h e l
]

Holder-cases : (x : Holder) → (x ≡ nobody) ⊎ ((x ≡ at_work) ⊎ (x ≡ returning))
Holder-cases nobody = inl refl
Holder-cases at_work = inr (inl refl)
Holder-cases returning = inr (inr refl)

move_next : (g : Gates) → IsCounted g → 0 < load g → Ahead g
unfolding take
move_next g v l = elim (Holder-cases g.guard) [
  | inl h ↦ move_unheld g v h l
  | inr (inl h) ↦
      (guarded_ended true, record g { guard = returning; warm = true }, refl, ground arith)
  | inr (inr h) ↦
      (guard_dropped, record g { guard = nobody; permits = suc g.permits }, refl, ground arith)
]

moved_first :
    {g h k : Gates} {n : ℕ} (e : Event)
    → moves_on e ≡ true
    → take e g ≡ some h
    → Moves h n k
    → Moves g (suc n) k
moved_first e m s none_made = then_moved e none_made m s
moved_first e m s (then_moved f ms n r) = then_moved f (moved_first e m s ms) n r

abbrev Drains : Gates → Type 0
Drains g = (n : ℕ) × (h : Gates) × Moves g n h × (n ≤ load g) × (load h ≡ 0)

drain : (fuel : ℕ) (g : Gates) → Reached g → load g ≤ fuel → Drains g
drain zero g r l = (0, g, none_made, omega arith, omega arith)
drain (suc fuel) g r l = elim (ℕ-cases (load g)) [
  | inl e ↦ (0, g, none_made, omega arith, e)
  | inr (k, e) ↦
      let (f, next, m, s) = move_next g (Reached-IsCounted r) (omega arith) in
      let lower = load-take f g next m s in
      let (n, h, ms, few, done) = drain fuel next (then_taken f r s) (omega arith) in
      (suc n, h, moved_first f m s ms, omega arith, done)
]

-- However the runner has come to where it is, its calls can be let in and their processes can end
-- until no call waits and no process of theirs runs, in at most as many moves as its load: no order
-- of calls, ends and cancellations shuts a call out for ever.
pub calls_drain :
    (g : Gates) → Reached g → (n : ℕ) × (h : Gates) × Moves g n h × (n ≤ load g) × (load h ≡ 0)
calls_drain g r = drain (load g) g r (omega arith)
