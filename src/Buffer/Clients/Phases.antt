-- ===== src/Buffer/Clients/Phases.antt =====
-- How the calls of server/buffer.c that change the state keep the phase of the clients.
use native.Mathlib.Decide.{dec_lt, ℕ_discrete}
use pand_ablocks_server.Prelude.{
  ℕ, suc, ◌-◌, ◌<◌, ◌≡◌, ◌≢◌, refl, sym, ◌∙◌, arith, true, false, List, ◌∷◌, u32_mod, add32, sub32,
  ltb, if◌then◌else◌, length, ◌⊎◌, inl, inr,
}
use pand_ablocks_server.Buffer.{
  CaptureBuffer, BufferState, state_idle, state_active, state_clearing, is_idle, start_write,
  end_write, complete_capture, add_reader,
}
use pand_ablocks_server.Buffer.Reader.{create_reader}
use pand_ablocks_server.Buffer.Clients.{Client, pending, IsResting, IsDue, All, Phase, IsConsistent}
use pand_ablocks_server.Buffer.Clients.Counts.{
  pending-le-length, pending-resting, IsDue-of_resting, IsResting-of_due,
}

-- The phase is read off a state that is known.
pub Phase-at :
    {t : BufferState} (st : BufferState) (cycle active : ℕ) (cs : List Client)
    → t ≡ st
    → Phase t cycle active cs
    → Phase st cycle active cs
Phase-at st cycle active cs e p = rw (sym e) p

pub start-Phase :
    (b : CaptureBuffer) (cs : List Client)
    → b.state ≡ state_idle
    → IsConsistent (record { buffer = b; clients = cs })
    → IsConsistent (record { buffer = start_write b; clients = cs })
unfolding start_write
start-Phase b cs e h =
    let p = Phase-at state_idle b.capture_cycle b.active_count cs e h.phase in
    record {
      counted = h.counted;
      few = h.few;
      in_range = h.in_range;
      phase = (
        IsDue-of_resting b.capture_cycle cs p.0,
        h.counted ∙ sym (pending-resting b.capture_cycle cs p.0),
      );
    }

pub finish-Phase :
    (b : CaptureBuffer) (cs : List Client)
    → b.state ≡ state_active
    → IsConsistent (record { buffer = b; clients = cs })
    → IsConsistent (record { buffer = end_write b; clients = cs })
unfolding end_write
finish-Phase b cs e h =
    let p = Phase-at state_active b.capture_cycle b.active_count cs e h.phase in
    elim (dec_lt 0 b.active_count) [
      | yes k ↦
          let t : ltb 0 b.active_count ≡ true = ground arith in
          rw t (record {
            counted = h.counted;
            few = h.few;
            in_range = h.in_range;
            phase = (p.0, p.1, k);
          })
      | no k ↦
          let t : ltb 0 b.active_count ≡ false = ground arith in
          rw t (record {
            counted = h.counted;
            few = h.few;
            in_range = omega arith;
            phase = (IsResting-of_due b.capture_cycle cs p.0 (omega (arith, p.1)), omega arith);
          })
    ]

pub State-cases : (t : BufferState) → t ≢ state_idle → (t ≡ state_active) ⊎ (t ≡ state_clearing)
State-cases state_idle n = absurd (n refl)
State-cases state_active n = inl refl
State-cases state_clearing n = inr refl

complete-last :
    (b : CaptureBuffer)
    → b.state ≡ state_clearing
    → b.active_count ≡ 1
    → complete_capture b
      ≡ record b { active_count = 0; state = state_idle; capture_cycle = add32 b.capture_cycle 1 }
unfolding complete_capture
complete-last b e one = let z : sub32 b.active_count 1 ≡ 0 = omega arith in ground arith

complete-more :
    (b : CaptureBuffer)
    → (b.state ≡ state_active) ⊎ ((b.state ≡ state_clearing) × (1 < b.active_count))
    → 0 < b.active_count
    → b.active_count < u32_mod
    → complete_capture b ≡ record b { active_count = b.active_count - 1 }
unfolding complete_capture
complete-more b e pos small =
    let z : sub32 b.active_count 1 ≡ b.active_count - 1 = omega arith in ground arith

-- One active reader completes the capture, and `cs` are the clients that are left to count.
pub complete-Phase :
    (b : CaptureBuffer) (cs : List Client)
    → b.state ≢ state_idle
    → All (IsDue b.capture_cycle) cs
    → b.active_count ≡ suc (pending b.capture_cycle cs)
    → b.active_count < u32_mod
    → b.reader_count ≡ length cs
    → length cs < u32_mod
    → b.capture_cycle < u32_mod
    → IsConsistent (record { buffer = complete_capture b; clients = cs })
complete-Phase b cs busy due active small counted few in_range = elim (State-cases b.state busy) [
  | inl e ↦ rw (complete-more b (inl e) (omega arith) small) (record {
    counted = counted;
    few = few;
    in_range = in_range;
    phase = rw e (due, omega arith);
  })
  | inr e ↦ elim (ℕ_discrete b.active_count 1) [
    | yes one ↦ rw (complete-last b e one) (record {
      counted = counted;
      few = few;
      in_range = omega arith;
      phase = (IsResting-of_due b.capture_cycle cs due (omega arith), refl);
    })
    | no more ↦ rw (complete-more b (inr (e, omega arith)) (omega arith) small) (record {
      counted = counted;
      few = few;
      in_range = in_range;
      phase = rw e (due, omega arith, omega arith);
    })
  ]
]

Phase-grow :
    (st : BufferState) (cycle active : ℕ) (c : Client) (cs : List Client)
    → IsResting cycle c
    → suc (length cs) < u32_mod
    → Phase st cycle active cs
    → Phase st cycle (if is_idle st then active else add32 active 1) (c ∷ cs)
unfolding pending
Phase-grow state_idle cycle active c cs new small p = ((new, p.0), p.1)
Phase-grow state_active cycle active c cs new small p =
    ((inl new.1, p.0), ground (arith, pending-le-length cycle cs))
Phase-grow state_clearing cycle active c cs new small p = (
  (inl new.1, p.0),
  ground (arith, pending-le-length cycle cs),
  omega (arith, pending-le-length cycle cs, p.1),
)

pub connect-Phase :
    (b : CaptureBuffer) (cs : List Client)
    → suc (length cs) < u32_mod
    → IsConsistent (record { buffer = b; clients = cs })
    → IsConsistent (record {
      buffer = (create_reader b).0;
      clients = record { reader = (create_reader b).1; opened = false } ∷ cs;
    })
unfolding create_reader add_reader
connect-Phase b cs small h = record {
  counted = omega (arith, h.counted);
  few = small;
  in_range = h.in_range;
  phase = Phase-grow b.state b.capture_cycle b.active_count _ cs (refl, refl) small h.phase;
}
