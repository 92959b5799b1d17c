-- ===== src/Pass/Runner/Bounded.antt =====
-- src/pass/runner.rs: how many processes run at once, and that no call waits for ever.
use cosmic_pass.Base.{ℕ, ◌+◌, ◌≤◌, ◌≡◌, refl, some, arith, if◌then◌else◌}
use cosmic_pass.Pass.Runner.Gates.{
  max_concurrent, Holder, nobody, at_work, returning, Gates, Event, called, take, Reached, made,
  then_taken,
}

abbrev pub held : Holder → ℕ
held nobody = 0
held at_work = 1
held returning = 1

abbrev pub working : Holder → ℕ
working nobody = 0
working at_work = 1
working returning = 0

-- The processes of calls that are not streaming.
abbrev pub processes : Gates → ℕ
processes g = working g.guard + g.at_large

-- The permits are all accounted for, and only calls that came after some process run without guard.
pub record IsCounted (g : Gates) : Type 0 where
  pub counted : g.permits + g.unguarded + held g.guard + g.at_large ≡ max_concurrent
  pub alone : (if g.warm then 0 else g.at_large) ≡ 0

take-IsCounted : (e : Event) (g h : Gates) → IsCounted g → take e g ≡ some h → IsCounted h
unfolding take
take-IsCounted called g h v s = ground arith
take-IsCounted _ g h v s = ground arith

pub Reached-IsCounted : {g : Gates} → Reached g → IsCounted g
Reached-IsCounted made = record { counted = omega arith; alone = refl }
Reached-IsCounted (then_taken {g} {h} e r s) = take-IsCounted e g h (Reached-IsCounted r) s

-- In whatever order the calls come, are let in, end and are cancelled, at most four processes run at
-- once, those of a sign-in aside, and at most one as long as none has come back.
pub processes_bounded :
    (g : Gates) → Reached g → processes g ≤ (if g.warm then max_concurrent else 1)
processes_bounded g r = let v = Reached-IsCounted r in ground arith
