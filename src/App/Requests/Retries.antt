-- ===== src/App/Requests/Retries.antt =====
-- The waits and the repeated requests of apps/gateway/app_main.cpp end.
use bm_sbc.Prelude.{
  ℕ, zero, suc, ◌+◌, ◌-◌, ◌*◌, ◌/◌, ◌≤◌, ◌<◌, ◌≡◌, ◌⊎◌, refl, ap, ◌∙◌, Bool, true, false, not,
  Option, none, some, ltb, leb, ◌&&◌, ◌||◌, Bool-cases, inl, inr, arith,
}
use bm_sbc.App.Requests.{arrived, wait_loop, wait_for_reply, got}

-- The wait ends: at the first poll, every 20 ms, that finds the flag set, or at the first from the
-- timeout on.
pub record Waits (timeout start : ℕ) (reply : Option ℕ) (outcome : Option ℕ) : Type 0 where
  pub waited : ℕ
  pub returns : outcome ≡ some waited
  pub polls : ℕ
  pub waited_is : waited ≡ start + 20 * polls
  pub ends : (arrived reply waited || leb timeout waited) ≡ true
  pub fresh : (polls ≡ 0) ⊎ ((arrived reply (waited - 20) ≡ false) × (waited < timeout + 20))

earlier :
    (timeout start : ℕ) (reply : Option ℕ) (outcome : Option ℕ)
    → start < timeout
    → arrived reply start ≡ false
    → Waits timeout (start + 20) reply outcome
    → Waits timeout start reply outcome
earlier timeout start reply outcome lt waits w = record {
  waited = w.waited;
  returns = w.returns;
  polls = suc w.polls;
  waited_is = omega (arith, w.waited_is);
  ends = w.ends;
  fresh = elim w.fresh [
    | inl first ↦ inr (
      ap (arrived reply) {x = w.waited - 20} {y = start} (omega (arith, w.waited_is, first))
          ∙ waits,
      omega (arith, w.waited_is, first),
    )
    | inr later ↦ inr later
  ];
}

wait_loop-Waits :
    (fuel timeout start : ℕ) (reply : Option ℕ)
    → timeout - start < fuel
    → Waits timeout start reply (wait_loop fuel timeout reply start)
unfolding wait_loop
wait_loop-Waits zero timeout start reply enough = elim enough [ ]
wait_loop-Waits (suc fuel) timeout start reply enough =
    elim (Bool-cases (not (arrived reply start) && ltb start timeout)) [
      | inl more ↦ rw more (
          earlier timeout start reply (wait_loop fuel timeout reply (start + 20)) (ground arith)
            (ground arith) (wait_loop-Waits fuel timeout (start + 20) reply (ground arith)))
      | inr done ↦ rw done (record {
        waited = start;
        returns = refl;
        polls = 0;
        waited_is = omega arith;
        ends = ground arith;
        fresh = inl refl;
      })
    ]

-- The reply comes within the timeout.
abbrev pub InTime : ℕ → Option ℕ → Type 0
InTime timeout reply = arrived reply timeout ≡ true

-- What the last poll knows, the timeout knows.
arrived_by :
    (timeout waited : ℕ) (reply : Option ℕ)
    → (arrived reply waited || leb timeout waited) ≡ true
    → waited ≤ timeout
    → arrived reply waited ≡ arrived reply timeout
arrived_by timeout waited none ends le = refl
arrived_by timeout waited (some at) ends le = ground arith

pub got_lem :
    (timeout : ℕ) (reply : Option ℕ)
    → 20 * (timeout / 20) ≡ timeout
    → got reply (wait_for_reply timeout reply) ≡ arrived reply timeout
got_lem timeout reply whole =
    let w = wait_loop-Waits (timeout + 1) timeout 0 reply (omega arith) in
    ap (got reply) w.returns
    ∙ arrived_by timeout w.waited reply w.ends (omega (arith, w.waited_is, w.fresh))

-- How the repeated request ends: with the reply to the first request that has one in time, and no
-- further request; or, if none has, after all of them.
pub data Asked (retries timeout attempt : ℕ) (replies : ℕ → Option ℕ) (r : Bool × ℕ) : Type 0 where
  answered :
      (k : ℕ)
      → k < retries
      → arrived (replies (attempt + k)) timeout ≡ true
      → ((j : ℕ) → j < k → arrived (replies (attempt + j)) timeout ≡ false)
      → r ≡ (true, suc k)
      → Asked retries timeout attempt replies r
  unanswered :
      ((j : ℕ) → j < retries → arrived (replies (attempt + j)) timeout ≡ false)
      → r ≡ (false, retries)
      → Asked retries timeout attempt replies r

module _ (timeout attempt : ℕ) (replies : ℕ → Option ℕ) where
  abbrev at : ℕ → Bool
  at k = arrived (replies k) timeout
