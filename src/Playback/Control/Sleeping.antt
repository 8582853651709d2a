-- ===== src/Playback/Control/Sleeping.antt =====
-- When `sleep` of src/k5vision/media/playback_control.py returns.
use k5_vision.Prelude.{
  ◌≡◌, ◌∙◌, ap, sym, subst, refl, Bool, true, false, Option, List, [], ◌∷◌, ◌++◌, ok, raise, Result,
  if◌then◌else◌, ◌⊎◌, inl, inr, Bool-cases, Result-cases, arith,
}
use mathlib.Core.List.{append_assoc}
use k5_vision.Playback.Control.{
  Floats, State, Control, ControlError, Call, monotonic, call_all, Wake, woken, sleep_fails,
  interrupted, Sleep, woke, turn, sleep_turns, sleep,
}

-- The calls made up to a waking.
abbrev pub calls_of : {K : Type 0} → List (Wake K) → List (Call K)
calls_of [] = []
calls_of (woken ks reading ∷ ws) = ks ++ calls_of ws
calls_of (sleep_fails ∷ ws) = calls_of ws
calls_of (interrupted ∷ ws) = calls_of ws

-- A waking at which a sleep to `target` may return: the calls up to it leave the control running,
-- and the virtual clock, read there, shows that nothing remains.
pub record IsReached {K : Type 0} (F : Floats K) (c : Control K) (target : K)
    (ws rest : List (Wake K)) : Type 0 where
  pub before : List (Wake K)
  pub calls : List (Call K)
  pub reading : Option K
  pub splits : ws ≡ before ++ woken calls reading ∷ rest
  pub runs : (call_all F c (calls_of before ++ calls)).state ≡ State.running
  pub shown : K
  pub shows : monotonic F (call_all F c (calls_of before ++ calls)) reading ≡ ok shown
  pub nothing_left : F.not_positive (F.sub target shown) ≡ true

state_cases :
    {K : Type 0} (s : State) (waits runs : Sleep K) (rest : List (Wake K))
    → (elim s as (λ x. Sleep K) [ State.paused ↦ waits | State.running ↦ runs ]) ≡ woke rest
    → (waits ≡ woke rest) ⊎ ((s ≡ State.running) × (runs ≡ woke rest))
state_cases State.paused waits runs rest h = inl h
state_cases State.running waits runs rest h = inr (refl, h)

module _ {K : Type 0} (F : Floats K) where
  turn_cases :
      (target : K) (m : Result ControlError K) (ws : List (Wake K)) (later : Sleep K)
      (rest : List (Wake K))
      → turn F target m ws later ≡ woke rest
      → ((v : K) × (m ≡ ok v) × (F.not_positive (F.sub target v) ≡ true) × (ws ≡ rest))
        ⊎ (later ≡ woke rest)
  turn_cases target (raise e) ws later rest h = absurd (cc h)
  turn_cases target (ok v) ws later rest h = elim (Bool-cases (F.not_positive (F.sub target v))) [
    | inl there ↦ inl (
      v,
      refl,
      there,
      rests (subst (λ (b : Bool). (if b then woke ws else later) ≡ woke rest) there h),
    )
    | inr short ↦ inr (subst (λ (b : Bool). (if b then woke ws else later) ≡ woke rest) short h)
  ]
    where
      rests : woke ws ≡ woke rest → ws ≡ rest
      rests e = cc e

  call_all-append :
      (ks js : List (Call K)) (c : Control K)
      → call_all F c (ks ++ js) ≡ call_all F (call_all F c ks) js
  unfolding call_all
  call_all-append [] js c = refl
  call_all-append (k ∷ ks) js c = call_all-append ks js _

  -- What is reached behind a waking is reached from before it.
  IsReached-cons :
      (c : Control K) (target : K) (ks : List (Call K)) (reading : Option K)
      (ws rest : List (Wake K))
      → IsReached F (call_all F c ks) target ws rest
      → IsReached F c target (woken ks reading ∷ ws) rest
  IsReached-cons c target ks reading ws rest r =
      let later = r.before in
      let after : call_all F c ((ks ++ calls_of later) ++ r.calls)
          ≡ call_all F (call_all F c ks) (calls_of later ++ r.calls) =
        ap (call_all F c) (append_assoc ks (calls_of later) r.calls)
        ∙ call_all-append ks (calls_of later ++ r.calls) c in
      record {
        before = woken ks reading ∷ later;
        calls = r.calls;
        reading = r.reading;
        splits = ap (woken ks reading ∷◌) r.splits;
        runs = ap (λ (x : Control K). x.state) after ∙ r.runs;
        shown = r.shown;
        shows = ap (λ (x : Control K). monotonic F x r.reading) after ∙ r.shows;
        nothing_left = r.nothing_left;
      }

  sleep_turns-IsReached :
      (ws : List (Wake K)) (c : Control K) (target : K) (rest : List (Wake K))
      → sleep_turns F c target ws ≡ woke rest
      → IsReached F c target ws rest
  unfolding sleep_turns
  sleep_turns-IsReached [] c target rest h = absurd (cc h)
  sleep_turns-IsReached (sleep_fails ∷ ws) c target rest h = absurd (cc h)
  sleep_turns-IsReached (interrupted ∷ ws) c target rest h = absurd (cc h)
  sleep_turns-IsReached (woken ks reading ∷ ws) c target rest h =
      let c' = call_all F c ks in
      let later : sleep_turns F c' target ws ≡ woke rest
          → IsReached F c target (woken ks reading ∷ ws) rest =
        λ k.
          IsReached-cons c target ks reading ws rest (sleep_turns-IsReached ws c' target rest k) in
      elim (state_cases c'.state (sleep_turns F c' target ws)
        (turn F target (monotonic F c' reading) ws (sleep_turns F c' target ws)) rest h) [
          | inl waits ↦ later waits
          | inr (running, runs) ↦
              elim (turn_cases target (monotonic F c' reading) ws (sleep_turns F c' target ws) rest
                runs) [
                  | inl (v, shown, there, ended) ↦ record {
                    before = [];
                    calls = ks;
                    reading = reading;
                    splits = ap (woken ks reading ∷◌) ended;
                    runs = running;
                    shown = v;
                    shows = shown;
                    nothing_left = there;
                  }
                  | inr waits ↦ later waits
                ]
        ]

  -- A sleep that returns, for a delay that is not at most zero, was begun at a reading of the virtual clock, and
  -- returns at a waking at which the control runs and the virtual clock, read there, has reached
  -- that reading and the delay: it does not return while the control is paused, whatever calls were
  -- made on the way. This is in the floats' own arithmetic, of which nothing is assumed.
  pub sleep-IsReached :
      (c : Control K) (delay : K) (reading : Option K) (ws rest : List (Wake K))
      → F.not_positive delay ≡ false
      → sleep F c delay reading ws ≡ woke rest
      → (start : K) × (monotonic F c reading ≡ ok start) × IsReached F c (F.add start delay) ws rest
  unfolding sleep
  sleep-IsReached c delay reading ws rest positive h = elim (Result-cases (monotonic F c reading)) [
    | inl (v, begun) ↦ (
      v,
      begun,
      sleep_turns-IsReached ws c (F.add v delay) rest (sym (rw (positive, begun, sleep) refl) ∙ h),
    )
    | inr (e, failed) ↦ absurd (ground (arith, positive, failed, h))
  ]
