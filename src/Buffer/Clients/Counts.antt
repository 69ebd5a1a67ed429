-- ===== src/Buffer/Clients/Counts.antt =====
-- Counting readers over a list of clients, for the steps of server/buffer.c.
use pand_ablocks_server.Prelude.{
  ℕ, suc, ◌+◌, ◌≤◌, ◌≡◌, ◌≢◌, refl, sym, ◌∙◌, arith, List, [], ◌∷◌, ◌++◌, add32, ◌==◌,
  if◌then◌else◌, length, inl,
}
use pand_ablocks_server.Buffer.{BufferState, state_idle, state_active, state_clearing}
use pand_ablocks_server.Buffer.Clients.{Phase, Client, pending, IsResting, IsDue, All}

pub pending-append :
    (cycle : ℕ) (xs ys : List Client)
    → pending cycle (xs ++ ys) ≡ pending cycle xs + pending cycle ys
unfolding pending
pending-append cycle [] ys = omega arith
pending-append cycle (c ∷ xs) ys = omega (arith, pending-append cycle xs ys)

pub pending-le-length : (cycle : ℕ) (cs : List Client) → pending cycle cs ≤ length cs
unfolding pending
pending-le-length cycle [] = omega arith
pending-le-length cycle (c ∷ cs) = ground (arith, pending-le-length cycle cs)

pub pending-resting :
    (cycle : ℕ) (cs : List Client) → All (IsResting cycle) cs → pending cycle cs ≡ length cs
unfolding pending
pending-resting cycle [] h = refl
pending-resting cycle (c ∷ cs) h = ground (arith, pending-resting cycle cs h.1)

pub IsDue-of_resting :
    (cycle : ℕ) (cs : List Client) → All (IsResting cycle) cs → All (IsDue cycle) cs
IsDue-of_resting cycle [] h = tt
IsDue-of_resting cycle (c ∷ cs) h = (inl h.0.1, IsDue-of_resting cycle cs h.1)

-- Once nobody is pending, everybody waits for the next capture.
pub IsResting-of_due :
    (cycle : ℕ) (cs : List Client)
    → All (IsDue cycle) cs
    → pending cycle cs ≡ 0
    → All (IsResting (add32 cycle 1)) cs
unfolding pending
IsResting-of_due cycle [] h e = tt
IsResting-of_due cycle (c ∷ cs) h e = (ground arith, IsResting-of_due cycle cs h.1 (ground arith))

module _ (P : Client → Type 0) where
  pub All-append : (xs ys : List Client) → All P xs → All P ys → All P (xs ++ ys)
  All-append [] ys h k = k
  All-append (c ∷ xs) ys h k = (h.0, All-append xs ys h.1 k)

  pub All-split : (xs ys : List Client) → All P (xs ++ ys) → All P xs × All P ys
  All-split [] ys h = (tt, h)
  All-split (c ∷ xs) ys h = let t = All-split xs ys h.1 in ((h.0, t.0), t.1)

pub length-middle :
    (xs ys : List Client) (c : Client) → length (xs ++ (c ∷ ys)) ≡ suc (length (xs ++ ys))
length-middle [] ys c = refl
length-middle (x ∷ xs) ys c = omega (arith, length-middle xs ys c)

-- Whether one client is pending.
abbrev pub due_now : ℕ → Client → ℕ
due_now cycle c = if c.reader.capture_cycle == cycle then 1 else 0

pub pending-middle :
    (cycle : ℕ) (xs ys : List Client) (c : Client)
    → pending cycle (xs ++ (c ∷ ys)) ≡ due_now cycle c + pending cycle (xs ++ ys)
unfolding pending
pending-middle cycle [] ys c = refl
pending-middle cycle (x ∷ xs) ys c = omega (arith, pending-middle cycle xs ys c)

-- What is known of the clients while the buffer is busy, in either state.
abbrev pub Busy : ℕ → ℕ → List Client → Type 0
Busy cycle active cs = All (IsDue cycle) cs × (active ≡ pending cycle cs)

pub Phase-Busy :
    (st : BufferState) (cycle active : ℕ) (cs : List Client)
    → st ≢ state_idle
    → Phase st cycle active cs
    → Busy cycle active cs
Phase-Busy state_idle cycle active cs n p = absurd (n refl)
Phase-Busy state_active cycle active cs n p = p
Phase-Busy state_clearing cycle active cs n p = (p.0, p.1)

-- A busy phase with the same count holds of any list that is as busy.
pub Phase-Busy_mono :
    (st : BufferState) (cycle active : ℕ) (cs ds : List Client)
    → st ≢ state_idle
    → Phase st cycle active cs
    → Busy cycle active ds
    → Phase st cycle active ds
Phase-Busy_mono state_idle cycle active cs ds n p q = absurd (n refl)
Phase-Busy_mono state_active cycle active cs ds n p q = q
Phase-Busy_mono state_clearing cycle active cs ds n p q = (q.0, q.1, p.2)

module _ (cycle active : ℕ) (xs ys : List Client) (c : Client) where
  -- Without one client.
  pub Busy-without :
      Busy cycle active (xs ++ (c ∷ ys))
      → All (IsDue cycle) (xs ++ ys)
        × IsDue cycle c
        × (active ≡ due_now cycle c + pending cycle (xs ++ ys))
  Busy-without h =
      let t = All-split (IsDue cycle) xs (c ∷ ys) h.0 in
      (All-append (IsDue cycle) xs ys t.0 t.1.1, t.1.0, h.1 ∙ pending-middle cycle xs ys c)

  -- With one more.
  pub Busy-with :
      All (IsDue cycle) (xs ++ ys)
      → IsDue cycle c
      → active ≡ due_now cycle c + pending cycle (xs ++ ys)
      → Busy cycle active (xs ++ (c ∷ ys))
  Busy-with h k e =
      let t = All-split (IsDue cycle) xs ys h in
      (All-append (IsDue cycle) xs (c ∷ ys) t.0 (k, t.1), e ∙ sym (pending-middle cycle xs ys c))
