-- ===== src/Agent/Replay/Closed.antt =====
-- crates/agent/src/supervisor.rs: what holds after the journal has been replayed.
use faultforge.Prelude.{
  ℕ, zero, suc, ◌≡◌, ◌⊎◌, refl, String, true, Option, none, some, List, [], ◌∷◌, All, is_some,
  Bool-cases, inl, inr, arith,
}
use mathlib.Core.Path.{subst}
use faultforge.Prelude.Int.{ℤ}
use faultforge.Prelude.Dict.{get, get-remove}
use faultforge.Agent.Machine.{
  Effect, emit_status, invoke, write_journal, remove_journal, mark_tainted,
}
use faultforge.Agent.Host.{
  JournalEntry, Journal, TaintRecord, TaintFile, remove_entry, current, mark,
}
use faultforge.Agent.Replay.{Disk, Replay, replay_effect, drain, take, is_over, replay_loop, begin}
use faultforge.Agent.Replay.Ends.{replay_entry_ends}
use faultforge.Agent.Replay.Boot.{
  JournalReadError, EntryRead, ok, err, Boot, replay_read, replay_reads,
}

-- A host that is quarantined stays so.
tainted-mark :
    (failure : Option String) (r : TaintRecord) (file : TaintFile)
    → is_some (current file) ≡ true
    → is_some (current (mark failure r file)) ≡ true
unfolding mark
tainted-mark failure r file t = rw (t, mark) t

marked : (r : TaintRecord) (file : TaintFile) → is_some (current (mark none r file)) ≡ true
unfolding mark current
marked r file = elim (Bool-cases (is_some (current file))) [
  | inl held ↦ rw (held, mark) held
  | inr free ↦ rw (free, mark) refl
]

-- Neither the quarantine nor the absence of an entry is undone.
record Keeps (journal journal' : Journal) (taint taint' : TaintFile) : Type 0 where
  quarantine : is_some (current taint) ≡ true → is_some (current taint') ≡ true
  gone : (id : String) → get id journal ≡ none → get id journal' ≡ none

Keeps-refl : (j : Journal) (t : TaintFile) → Keeps j j t t
Keeps-refl j t = record { quarantine = λ h. h; gone = λ id h. h }

Keeps-trans :
    {j1 j2 j3 : Journal} {t1 t2 t3 : TaintFile}
    → Keeps j1 j2 t1 t2
    → Keeps j2 j3 t2 t3
    → Keeps j1 j3 t1 t3
Keeps-trans a b = record {
  quarantine = λ h. b.quarantine (a.quarantine h);
  gone = λ id h. b.gone id (a.gone id h);
}

gone-remove :
    (failure : Option String) (k id : String) (j : Journal)
    → get id j ≡ none
    → get id (remove_entry failure k j) ≡ none
unfolding remove_entry
gone-remove none k id j h = ground (arith, get-remove k id j)
gone-remove (some why) k id j h = h

List-cases : {A : Type 0} (xs : List A) → (xs ≡ []) ⊎ ((x : A) × (ys : List A) × (xs ≡ x ∷ ys))
List-cases [] = inl refl
List-cases (x ∷ ys) = inr (x, ys, refl)

module _ (e : JournalEntry) (disk : Disk) where
  abbrev Kept : Replay → Replay → Type 0
  Kept r r' = Keeps r.journal r'.journal r.taint r'.taint

  Kept-effect : (f : Effect) (r : Replay) → Kept r (replay_effect e disk f r)
  unfolding replay_effect
  Kept-effect (emit_status s w) r = Keeps-refl r.journal r.taint
  Kept-effect (invoke c p) r = Keeps-refl r.journal r.taint
  Kept-effect write_journal r = Keeps-refl r.journal r.taint
  Kept-effect remove_journal r = record {
    quarantine = λ h. h;
    gone = λ id h. gone-remove disk.remove_error e.instance_id id r.journal h;
  }
  Kept-effect (mark_tainted w) r = record {
    quarantine = λ h. tainted-mark disk.mark_error _ r.taint h;
    gone = λ id h. h;
  }

  Kept-drain : (fs : List Effect) (r : Replay) → Kept r (drain e disk fs r)
  unfolding drain
  Kept-drain [] r = Keeps-refl r.journal r.taint
  Kept-drain (f ∷ fs) r = Keeps-trans (Kept-effect f r) (Kept-drain fs (replay_effect e disk f r))

  Kept-loop : (fuel : ℕ) (r final : Replay) → replay_loop e disk fuel r ≡ some final → Kept r final
  unfolding replay_loop take
  Kept-loop zero r final h = absurd (ground arith)
  Kept-loop (suc fuel) r final h =
      let r' : Replay = drain e disk r.effects r in
      let kept : Kept r r' = Kept-drain r.effects r in
      elim (List-cases r'.queue) [
        | inl empty_ ↦
            let same : r' ≡ final = ground (arith, rw (empty_, replay_loop) at h) in rw same at kept
        | inr (event, queue, queued) ↦
            let next : Replay = take e disk event queue r' in
            let kept' : Kept r next = kept in
            elim (Bool-cases (is_over e disk next)) [
              | inl over ↦
                  let same : next ≡ final = ground (arith, rw (queued, replay_loop, over) at h) in
                  subst (λ x. Kept r x) same kept'
              | inr more ↦
                  Keeps-trans kept'
                    (Kept-loop fuel next final (rw (queued, replay_loop, more) at h))
            ]
      ]

module _ (now_secs : ℤ) (disk : JournalEntry → Disk) (mark_error : Option String)
    (show_error : JournalReadError → String) where
  abbrev one : EntryRead → Boot → Boot
  one = replay_read now_secs disk mark_error show_error

  -- What the replay of a readable entry leaves.
  replayed_ok :
      (e : JournalEntry) (b : Boot)
      → Keeps b.journal (one (ok e) b).journal b.taint (one (ok e) b).taint
        × ((disk e).remove_error ≡ none → get e.instance_id (one (ok e) b).journal ≡ none)
  unfolding replay_read begin
  replayed_ok e b =
      let (final, ends, over, gone) = replay_entry_ends e (disk e) now_secs b.journal b.taint in
      let kept = Kept-loop e (disk e) 5 (begin e (disk e) now_secs b.journal b.taint) final ends in
      rw (ends, replay_read) (kept, gone)

  replayed_err :
      (why : JournalReadError) (b : Boot)
      → Keeps b.journal (one (err why) b).journal b.taint (one (err why) b).taint
        × (mark_error ≡ none → is_some (current (one (err why) b).taint) ≡ true)
  unfolding replay_read mark
  replayed_err why b = (
    record { quarantine = λ h. tainted-mark mark_error _ b.taint h; gone = λ id h. h },
    λ works. rw works (marked _ b.taint),
  )

  replay_reads-Keeps :
      (es : List EntryRead) (b : Boot)
      → let b' = replay_reads now_secs disk mark_error show_error es b in
        Keeps b.journal b'.journal b.taint b'.taint
  unfolding replay_reads
  replay_reads-Keeps [] b = Keeps-refl b.journal b.taint
  replay_reads-Keeps (ok e ∷ es) b =
      Keeps-trans (replayed_ok e b).0 (replay_reads-Keeps es (one (ok e) b))
  replay_reads-Keeps (err why ∷ es) b =
      Keeps-trans (replayed_err why b).0 (replay_reads-Keeps es (one (err why) b))

  -- An entry of the journal is dealt with: a readable one is gone, for an unreadable one the host is
  -- quarantined, or the disk failed to do so.
  abbrev pub IsDealt : Boot → EntryRead → Type 0
  IsDealt b (ok e) = (is_some (disk e).remove_error ≡ true) ⊎ (get e.instance_id b.journal ≡ none)
  IsDealt b (err why) = (is_some mark_error ≡ true) ⊎ (is_some (current b.taint) ≡ true)

  or_failed :
      {A : Type 0} (failure : Option String) → (failure ≡ none → A) → (is_some failure ≡ true) ⊎ A
  or_failed none f = inr (f refl)
  or_failed (some why) f = inl refl

  -- Whatever the plugins do, and in whatever order the journal lists its entries, after the replay no
  -- readable entry is in the journal any more, or its removal failed, and the host is quarantined if
  -- there was an unreadable entry, or that could not be recorded.
  pub replay_reads-IsDealt :
      (es : List EntryRead) (b : Boot)
      → All (IsDealt (replay_reads now_secs disk mark_error show_error es b)) es
  unfolding replay_reads
  replay_reads-IsDealt [] b = tt
  replay_reads-IsDealt (ok e ∷ es) b =
      let kept = replay_reads-Keeps es (one (ok e) b) in
      (
        or_failed (disk e).remove_error
            (λ works. kept.gone e.instance_id ((replayed_ok e b).1 works)),
        replay_reads-IsDealt es (one (ok e) b),
      )
  replay_reads-IsDealt (err why ∷ es) b =
      let kept = replay_reads-Keeps es (one (err why) b) in
      (
        or_failed mark_error (λ works. kept.quarantine ((replayed_err why b).1 works)),
        replay_reads-IsDealt es (one (err why) b),
      )
