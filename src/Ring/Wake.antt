-- ===== src/Ring/Wake.antt =====
-- The wake event of the ring: `wakePending` in `EmitTraceEvent` and in `ReaderLoop`.
use hook_nt.Prelude.{ℕ, suc, ◌+◌, ◌%◌, ◌^◌, ◌≡◌, refl, Bool, false, true, not, none, some}
use hook_nt.Prelude.{◌⊎◌, inl, inr, ◌==◌, by_test, arith, Bool-cases, ap}
use hook_nt.Protocol.{TraceEvent}
use hook_nt.Ring.{Pc, ReaderPc, Shared, update, can_emit, with_sequence, is_behind, producer_step}
use hook_nt.Ring.System.{System}

-- Behind the reset of `wakePending`, up to the wait.
abbrev pub resting : ReaderPc → Bool
resting (ReaderPc.calling none) = true
resting (ReaderPc.at_slot none position) = true
resting (ReaderPc.checking none position sequence) = true
resting ReaderPc.waiting = true
resting _ = false

-- From where the reader has found nothing, so that it waits next or waits already.
abbrev pub settled : ReaderPc → Bool
settled (ReaderPc.checking none position sequence) = not (sequence == (position + 1) % 2 ^ 64)
settled ReaderPc.waiting = true
settled _ = false

abbrev pub is_waking : Pc → Bool
is_waking Pc.waking = true
is_waking _ = false

-- A producer that is about to signal the wake event, unless another is.
abbrev pub announces : Pc → Bool
announces Pc.published = true
announces Pc.waking = true
announces _ = false

abbrev pub is_unwoken : Pc → Bool
is_unwoken Pc.unwoken = true
is_unwoken _ = false

abbrev pub Some : (Pc → Bool) → (ℕ → Pc) → Type 0
Some test pcs = (i : ℕ) × (test (pcs i) ≡ true)

pub record IsWakeful (wake_pending : ℕ) (signalled : Bool) (dequeue : ℕ) (sequences : ℕ → ℕ)
    (pcs : ℕ → Pc) (place : ReaderPc) : Type 0 where
  pub woken :
      resting place ≡ true → (wake_pending == 0) ≡ false → (signalled ≡ true) ⊎ Some is_waking pcs
  pub noticed :
      settled place ≡ true
      → sequences (dequeue % 4096) ≡ suc dequeue
      → (signalled ≡ true) ⊎ Some announces pcs
  pub steady : (i : ℕ) → is_unwoken (pcs i) ≡ false

silent_waking : (q : Pc) → announces q ≡ false → is_waking q ≡ false
silent_waking Pc.idle h = refl
silent_waking (Pc.numbered e) h = refl
silent_waking (Pc.loaded e p) h = refl
silent_waking (Pc.seen e p n) h = refl
silent_waking Pc.full h = refl
silent_waking (Pc.claimed e p) h = refl
silent_waking (Pc.copied e p) h = refl
silent_waking Pc.published h = refl
silent_waking Pc.waking h = h
silent_waking Pc.unwoken h = refl

waking_announces : (q : Pc) → is_waking q ≡ true → announces q ≡ true
waking_announces Pc.idle h = h
waking_announces (Pc.numbered e) h = h
waking_announces (Pc.loaded e p) h = h
waking_announces (Pc.seen e p n) h = h
waking_announces Pc.full h = h
waking_announces (Pc.claimed e p) h = h
waking_announces (Pc.copied e p) h = h
waking_announces Pc.published h = refl
waking_announces Pc.waking h = refl
waking_announces Pc.unwoken h = h

pub settled-resting : (q : ReaderPc) → settled q ≡ true → resting q ≡ true
settled-resting (ReaderPc.calling none) h = refl
settled-resting (ReaderPc.calling (some n)) h = h
settled-resting (ReaderPc.at_slot none p) h = refl
settled-resting (ReaderPc.at_slot (some n) p) h = h
settled-resting (ReaderPc.checking none p n) h = refl
settled-resting (ReaderPc.checking (some m) p n) h = h
settled-resting (ReaderPc.taken c p e) h = h
settled-resting (ReaderPc.released c p e) h = h
settled-resting ReaderPc.rearming h = h
settled-resting ReaderPc.waiting h = refl
settled-resting ReaderPc.finished h = h

Some-update :
    (test : Pc → Bool) (pcs : ℕ → Pc) (i : ℕ) (q : Pc)
    → test (pcs i) ≡ false
    → Some test pcs
    → Some test (update pcs i q)
Some-update test pcs i q h (j, there) = elim (Bool-cases (j == i)) [
  | inl same ↦ let one : j ≡ i = ground arith in absurd (ground (arith, ap (λ x. test (pcs x)) one))
  | inr other ↦ (j, rw other there)
]

Some-here :
    (test : Pc → Bool) (pcs : ℕ → Pc) (i : ℕ) (q : Pc) → test q ≡ true → Some test (update pcs i q)
Some-here test pcs i q h =
    (i, by_test (λ x. test x ≡ true) (i == i) (λ g. h) (λ g. absurd (ground arith)))

module _ {wake_pending : ℕ} {signalled : Bool} {dequeue : ℕ} {sequences : ℕ → ℕ} {pcs : ℕ → Pc}
    {place : ReaderPc} (w : IsWakeful wake_pending signalled dequeue sequences pcs place)
    (i : ℕ) where
  steady_update : (q : Pc) → is_unwoken q ≡ false → (j : ℕ) → is_unwoken (update pcs i q j) ≡ false
  steady_update q h j = by_test (λ x. is_unwoken x ≡ false) (j == i) (λ g. h) (λ g. w.steady j)

  -- An access that has nothing to do with waking.
  quiet :
      (q : Pc)
      → is_unwoken q ≡ false
      → announces (pcs i) ≡ false
      → IsWakeful wake_pending signalled dequeue sequences (update pcs i q) place
  quiet q steady silent = record {
    woken = λ r p. elim (w.woken r p) [
      | inl s ↦ inl s
      | inr x ↦ inr (Some-update is_waking pcs i q (silent_waking (pcs i) silent) x)
    ];
    noticed = λ r p. elim (w.noticed r p) [
      | inl s ↦ inl s
      | inr x ↦ inr (Some-update announces pcs i q silent x)
    ];
    steady = steady_update q steady;
  }

  announce :
      (changed : ℕ → ℕ)
      → is_waking (pcs i) ≡ false
      → IsWakeful wake_pending signalled dequeue changed (update pcs i Pc.published) place
  announce changed silent = record {
    woken = λ r p. elim (w.woken r p) [
      | inl s ↦ inl s
      | inr x ↦ inr (Some-update is_waking pcs i Pc.published silent x)
    ];
    noticed = λ r p. inr (Some-here announces pcs i Pc.published refl);
    steady = steady_update Pc.published refl;
  }

  exchange_first : IsWakeful 1 signalled dequeue sequences (update pcs i Pc.waking) place
  exchange_first = record {
    woken = λ r p. inr (Some-here is_waking pcs i Pc.waking refl);
    noticed = λ r p. inr (Some-here announces pcs i Pc.waking refl);
    steady = steady_update Pc.waking refl;
  }

  exchange_again :
      is_waking (pcs i) ≡ false
      → (wake_pending == 0) ≡ false
      → IsWakeful 1 signalled dequeue sequences (update pcs i Pc.idle) place
  exchange_again silent taken = record {
    woken = λ r p. elim (w.woken r taken) [
      | inl s ↦ inl s
      | inr x ↦ inr (Some-update is_waking pcs i Pc.idle silent x)
    ];
    noticed = λ r p. elim (w.woken (settled-resting place r) taken) [
      | inl s ↦ inl s
      | inr x ↦
          let (j, there) = Some-update is_waking pcs i Pc.idle silent x in
          inr (j, waking_announces (update pcs i Pc.idle j) there)
    ];
    steady = steady_update Pc.idle refl;
  }

  signal : IsWakeful wake_pending true dequeue sequences (update pcs i Pc.idle) place
  signal = record {
    woken = λ r p. inl refl;
    noticed = λ r p. inl refl;
    steady = steady_update Pc.idle refl;
  }

abbrev pub SystemWakeful : System → Type 0
SystemWakeful s =
    IsWakeful s.shared.ring.wake_pending s.shared.signalled s.shared.ring.dequeue_position
      s.shared.ring.sequences s.pcs s.reader.place

module _ (s : System) (w : SystemWakeful s) (i : ℕ) (event : TraceEvent) where
  abbrev Good : Shared × Pc → Type 0
  Good r = SystemWakeful (record s { shared = r.0; pcs = update s.pcs i r.1 })

  pub produce-Wakeful : (q : Pc) → s.pcs i ≡ q → Good (producer_step true event true s.shared q)
  unfolding producer_step
  produce-Wakeful Pc.idle here =
      by_test Good (can_emit s.shared.ring event)
        (λ h.
          quiet w i
            (Pc.numbered (with_sequence event ((s.shared.ring.event_sequence + 1) % 2 ^ 32))) refl
            (ap announces here))
        (λ h. quiet w i Pc.idle refl (ap announces here))
  produce-Wakeful (Pc.numbered e) here =
      quiet w i (Pc.loaded e s.shared.ring.enqueue_position) refl (ap announces here)
  produce-Wakeful (Pc.loaded e position) here =
      quiet w i (Pc.seen e position (s.shared.ring.sequences (position % 4096))) refl
        (ap announces here)
  produce-Wakeful (Pc.seen e position sequence) here =
      let silent = ap announces here in
      by_test Good (is_behind sequence position) (λ h. quiet w i Pc.full refl silent)
        (λ h.
          by_test Good (sequence == position)
            (λ free.
              by_test Good (s.shared.ring.enqueue_position == position)
                (λ first. quiet w i (Pc.claimed e position) refl silent)
                (λ late. quiet w i (Pc.numbered e) refl silent))
            (λ ahead. quiet w i (Pc.numbered e) refl silent))
  produce-Wakeful Pc.full here = quiet w i Pc.idle refl (ap announces here)
  produce-Wakeful (Pc.claimed e position) here =
      quiet w i (Pc.copied e position) refl (ap announces here)
  produce-Wakeful (Pc.copied e position) here =
      announce w i (update s.shared.ring.sequences (position % 4096) ((position + 1) % 2 ^ 64))
        (ap is_waking here)
  produce-Wakeful Pc.published here = elim (Bool-cases (s.shared.ring.wake_pending == 0)) [
    | inl first ↦ rw first (exchange_first w i)
    | inr again ↦ rw again (exchange_again w i (ap is_waking here) again)
  ]
  produce-Wakeful Pc.waking here = signal w i
  produce-Wakeful Pc.unwoken here = absurd (ground (arith, w.steady i, ap is_unwoken here))
