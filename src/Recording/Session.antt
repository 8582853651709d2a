-- ===== src/Recording/Session.antt =====
-- Sessions of the writer: any sequence of calls, with any outcome of each, and what the final path
-- holds behind it.
use k5_vision.Prelude.{
  ℕ, ◌≤◌, ◌≡◌, ◌≢◌, refl, sym, ◌∙◌, subst, Bool, List, [], ◌∷◌, ◌++◌, arith, length, All, Option,
  none, some,
}
use mathlib.Core.List.{append_assoc, append-nil}
use k5_vision.Rtp.{Bytes}
use k5_vision.Generator.{items, ending, Ending}
use k5_vision.Recording.Format.{frames, magic}
use k5_vision.Recording.Sink.{State, Limits, Sink, drop_file}
use k5_vision.Recording.Reader.{new_reader, iter_packets}
use k5_vision.Recording.Soundness.{IsValid, payload_total}
use k5_vision.Recording.RoundTrip.{opened}
use k5_vision.Recording.Replay.{after, whole, iter_packets-frames}
use k5_vision.Recording.Publication.{Holds}
use k5_vision.Recording.Outcome.{
  Call, CallOk, Outcome, same, dropped, left, started, wrote, published, apply, apply_all, accepted,
  accepted_all, apply-Outcome,
}

-- What the final path holds in a state: what it held before, and then the sink is not finalized, or
-- the whole recording of the packets `ps`, within the limits.
pub data Visible (crc32 : Bytes → ℕ) (limits : Limits) (before : Option Bytes) (ps : List Bytes)
    (state : State) : Option Bytes → Type 0 where
  untouched :
      (out : Option Bytes)
      → state ≢ State.finalized
      → out ≡ before
      → Visible crc32 limits before ps state out
  recording :
      (out : Option Bytes)
      → before ≡ none
      → out ≡ some (magic ++ frames crc32 ps)
      → All (IsValid limits) ps
      → length ps ≤ limits.max_packets
      → payload_total ps ≤ limits.max_payload_bytes
      → Visible crc32 limits before ps state out

-- While the sink has its handle the staging file holds the packets accepted so far, and the final
-- path is as it was.
record IsSession (crc32 : Bytes → ℕ) (limits : Limits) (before : Option Bytes) (ps : List Bytes)
    (s : Sink) : Type 0 where
  same_limits : s.limits ≡ limits
  holds : s.state ≡ State.opened → s.file ≢ none → Holds crc32 s ps
  quiet : s.state ≡ State.opened → s.file ≢ none → s.published ≡ before
  fresh :
      s.state ≡ State.created
      → (s.published ≡ before) × (s.packets ≡ 0) × (s.payload_bytes ≡ 0) × (ps ≡ [])
  visible : Visible crc32 limits before ps s.state s.published

module _ (crc32 : Bytes → ℕ) (limits : Limits) (before : Option Bytes) where
  pub started-Holds :
      (s : Sink)
      → s.packets ≡ 0
      → s.payload_bytes ≡ 0
      → Holds crc32 (record s { file = some magic; file_bytes = 8; state = State.opened }) []
  unfolding frames
  started-Holds s p b = record {
    file = refl;
    packets = p;
    payload = b;
    file_bytes = omega arith;
    valid = tt;
    room = omega arith;
    space = omega arith;
  }

  Visible-moved :
      (ps : List Bytes) (a b : State) (out : Option Bytes)
      → b ≢ State.finalized
      → Visible crc32 limits before ps a out
      → Visible crc32 limits before ps b out
  Visible-moved ps a b out over (untouched _ _ e) = untouched out over e
  Visible-moved ps a b out over (recording _ e held valid room space) =
      recording out e held valid room space

  dropped-IsSession :
      (s : Sink) (ps : List Bytes)
      → IsSession crc32 limits before ps s
      → IsSession crc32 limits before ps (drop_file s)
  dropped-IsSession s ps inv = record {
    same_limits = inv.same_limits;
    holds = λ _ h. absurd (h refl);
    quiet = λ _ h. absurd (h refl);
    fresh = inv.fresh;
    visible = inv.visible;
  }

  started-IsSession :
      (s : Sink) (ps : List Bytes)
      → s.state ≡ State.created
      → IsSession crc32 limits before ps s
      → IsSession crc32 limits before ps
          (record s { file = some magic; file_bytes = 8; state = State.opened })
  started-IsSession s ps h inv =
      let (out, p, b, none_yet) = inv.fresh h in
      record {
        same_limits = inv.same_limits;
        holds = λ _ _. rw none_yet (started-Holds s p b);
        quiet = λ _ _. out;
        fresh = λ c. cc;
        visible = untouched s.published (λ c. cc) out;
      }

  -- One call: the packet that it accepts, if any, is added to those of the session.
  Outcome-IsSession :
      (s s' : Sink) (ps more : List Bytes)
      → Outcome crc32 s s' more
      → IsSession crc32 limits before ps s
      → IsSession crc32 limits before (ps ++ more) s'
  Outcome-IsSession s s' ps _ (same e) inv = rw (append-nil ps, e) inv
  Outcome-IsSession s s' ps _ (dropped e) inv = rw (append-nil ps, e) (dropped-IsSession s ps inv)
  Outcome-IsSession s s' ps _ (left o c f out l) inv = rw (append-nil ps) (record {
    same_limits = l ∙ inv.same_limits;
    holds = λ h. absurd (o h);
    quiet = λ h. absurd (o h);
    fresh = λ h. absurd (c h);
    visible = rw out (Visible-moved ps s.state s'.state s.published f inv.visible);
  })
  Outcome-IsSession s s' ps _ (started h e) inv =
      rw (append-nil ps, e) (started-IsSession s ps h inv)
  Outcome-IsSession s s' ps _ (wrote p o handle o' out l step) inv =
      let before_it = out ∙ inv.quiet o handle in
      record {
        same_limits = l ∙ inv.same_limits;
        holds = λ _ _. step ps (inv.holds o handle);
        quiet = λ _ _. before_it;
        fresh = λ c. cc;
        visible = untouched s'.published (λ c. cc) before_it;
      }
  Outcome-IsSession s s' ps _ (published o handle empty out gone no_created l) inv =
      let h = inv.holds o handle in
      rw (append-nil ps) (record {
        same_limits = l ∙ inv.same_limits;
        holds = λ _ q. absurd (q gone);
        quiet = λ _ q. absurd (q gone);
        fresh = λ q. absurd (no_created q);
        visible =
            recording s'.published (sym (inv.quiet o handle) ∙ empty) (out ∙ h.file)
              (subst (λ x. All (IsValid x) ps) inv.same_limits h.valid)
              (subst (λ (x : Limits). length ps ≤ x.max_packets) inv.same_limits h.room)
              (subst (λ (x : Limits). payload_total ps ≤ x.max_payload_bytes) inv.same_limits
                h.space);
      })

  apply_all-IsSession :
      (s : Sink) (ps : List Bytes) (cs : List Call)
      → All CallOk cs
      → IsSession crc32 limits before ps s
      → IsSession crc32 limits before (ps ++ accepted_all crc32 s cs) (apply_all crc32 s cs)
  unfolding apply_all accepted_all
  apply_all-IsSession s ps [] good inv = rw (append-nil ps) inv
  apply_all-IsSession s ps (c ∷ cs) good inv =
      let s' = apply crc32 s c in
      let more = accepted crc32 s c in
      rw (← append_assoc ps more (accepted_all crc32 s' cs)) (
        apply_all-IsSession s' (ps ++ more) cs good.1
          (Outcome-IsSession s s' ps more (apply-Outcome crc32 s c good.0) inv))

abbrev pub new_sink : Limits → Option Bytes → Sink
new_sink limits before = record {
  limits = limits;
  state = State.created;
  packets = 0;
  payload_bytes = 0;
  file_bytes = 0;
  file = none;
  published = before;
}

new_sink-IsSession :
    (crc32 : Bytes → ℕ) (limits : Limits) (before : Option Bytes)
    → IsSession crc32 limits before [] (new_sink limits before)
new_sink-IsSession crc32 limits before = record {
  same_limits = refl;
  holds = λ h. cc;
  quiet = λ h. cc;
  fresh = λ _. (refl, refl, refl, refl);
  visible = untouched before (λ c. cc) refl;
}

-- After any calls of a new sink, whatever becomes of each as long as none is cancelled a second time
-- while it waits for its worker, the final path holds what it held before, or, where it held
-- nothing, the complete file of the packets of the writes that returned, in their order, which the
-- limits admit. It is that file when the sink is finalized.
pub apply_all-Visible :
    (crc32 : Bytes → ℕ) (limits : Limits) (before : Option Bytes) (cs : List Call)
    → All CallOk cs
    → let s = new_sink limits before in
      let s' = apply_all crc32 s cs in
      Visible crc32 limits before (accepted_all crc32 s cs) s'.state s'.published
apply_all-Visible crc32 limits before cs good =
    (apply_all-IsSession crc32 limits before (new_sink limits before) [] cs good
      (new_sink-IsSession crc32 limits before)).visible

-- A reader of the file completes, hands out exactly these packets, and its counters are theirs.
abbrev pub ReadsBack : (Bytes → ℕ) → Limits → Bool → List Bytes → Bytes → Type 0
ReadsBack crc32 limits closes ps b =
    let run = iter_packets crc32 (new_reader limits closes) (some (whole b)) in
    (items run ≡ ps)
    × (ending run
        ≡ Ending.returned (record (after (opened limits closes) ps) { state = State.complete }))

Visible-ReadsBack :
    (crc32 : Bytes → ℕ) (limits : Limits) (closes : Bool) (ps : List Bytes) (b : Bytes)
    {state : State} {out : Option Bytes}
    → Visible crc32 limits none ps state out
    → out ≡ some b
    → ReadsBack crc32 limits closes ps b
Visible-ReadsBack crc32 limits closes ps b (untouched _ _ e) out = absurd (cc (sym e ∙ out))
Visible-ReadsBack crc32 limits closes ps b (recording _ _ e valid room space) out =
    let b_is : magic ++ frames crc32 ps ≡ b = cc in
    subst (ReadsBack crc32 limits closes ps) b_is (
      iter_packets-frames crc32 limits closes ps
        (record { valid = valid; room = omega arith; space = omega arith }))

-- A file that a session published where nothing was, none of its calls cancelled a second time while
-- it waited for its worker, is read back by a reader with the writer's limits to its end: the
-- packets handed out are those of the writes that returned, in their order, and the reader's
-- counters are theirs.
pub apply_all-ReadsBack :
    (crc32 : Bytes → ℕ) (limits : Limits) (closes : Bool) (cs : List Call) (b : Bytes)
    → All CallOk cs
    → (apply_all crc32 (new_sink limits none) cs).published ≡ some b
    → ReadsBack crc32 limits closes (accepted_all crc32 (new_sink limits none) cs) b
apply_all-ReadsBack crc32 limits closes cs b good out =
    Visible-ReadsBack crc32 limits closes (accepted_all crc32 (new_sink limits none) cs) b
      (apply_all-Visible crc32 limits none cs good) out
