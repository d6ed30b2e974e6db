-- ===== src/Contract/Metering.antt =====
-- What the sandbox guarantees of every run, whatever the contract's code does.
use mini_chain.Base.{
  String, ◌≡◌, refl, true, false, List, [], ◌∷◌, ◌++◌, All, arith, none, some, ◌⊎◌, length, ◌≢◌,
}
use mini_chain.Base.Int.{ℤ, pos, ◌≤ℤ◌, ◌-ℤ◌, -ℤ_parts, int_laws, ltb_ℤ→ge, ltb_ℤ→lt}
use mini_chain.Base.Text.{codes, int16}
use mini_chain.Platform.{
  Program, opcode, transfer_out, call_contract, finish, raise, out_of_gas, garbage, crash, hang,
  CallResult,
}
use mini_chain.Contract.{
  GasMeter, trace_opcode, Child, call, returned, errored, transfer_error, call_error, worker,
  new_meter, gas_spent,
}

-- What `transfer_out` asks of a transfer.
abbrev pub Passed : String × ℤ → Type 0
Passed (a, n) =
    (pos 1 ≤ℤ n) × ((length (codes a) ≡ 40) ⊎ (length (codes a) ≡ 64)) × (int16 a ≢ none)

-- What a meter keeps: between nothing and the limit is left, and something while it still counts.
record IsMeter (limit : ℤ) (m : GasMeter) : Type 0 where
  above : pos 0 ≤ℤ m.gas
  below : m.gas ≤ℤ limit
  initial : m.initial_gas ≡ limit
  live : m.tracing ≡ true → pos 1 ≤ℤ m.gas

-- Every message of the child reports a gas use between nothing and the limit, and transfers that
-- passed the guards of `transfer_out`, whatever the parent answers.
abbrev pub Reports : ℤ → Child → Type 0
Reports limit (call a d n k) = (r : CallResult) → Reports limit (k r)
Reports limit (returned s ts g) = (pos 0 ≤ℤ g) × (g ≤ℤ limit) × All Passed ts
Reports limit (errored e g) = (pos 0 ≤ℤ g) × (g ≤ℤ limit)
Reports limit _ = Unit

trace_opcode-IsMeter :
    (limit : ℤ) (m : GasMeter) → IsMeter limit m → IsMeter limit (trace_opcode m).0
unfolding trace_opcode
trace_opcode-IsMeter limit m h = ground (
  arith,
  -ℤ_parts m.gas (pos 1),
  ltb_ℤ→lt (pos 0) (m.gas -ℤ pos 1),
  ltb_ℤ→ge (pos 0) (m.gas -ℤ pos 1),
)

gas_spent-bounds :
    (limit : ℤ) (m : GasMeter) → IsMeter limit m → (pos 0 ≤ℤ gas_spent m) × (gas_spent m ≤ℤ limit)
gas_spent-bounds limit m h =
    let e = h.initial in
    rw e (omega (int_laws, h.above, h.below), omega (int_laws, h.above, h.below))

transfer_error-Passed : (a : String) (n : ℤ) → transfer_error a n ≡ none → Passed (a, n)
unfolding transfer_error
transfer_error-Passed a n h = ground (arith, ltb_ℤ→lt (pos 0) n)

All-snoc :
    (ts : List (String × ℤ)) (t : String × ℤ) → All Passed ts → Passed t → All Passed (ts ++ t ∷ [])
All-snoc [] t h k = (k, tt)
All-snoc (x ∷ ts) t h k = (h.0, All-snoc ts t h.1 k)

worker-Reports_from :
    (limit : ℤ) (pr : Program) (m : GasMeter) (ts : List (String × ℤ))
    → IsMeter limit m
    → All Passed ts
    → Reports limit (worker pr m ts)
unfolding worker
worker-Reports_from limit (opcode rest handler) m ts h s =
    let m' = (trace_opcode m).0 in
    elim (trace_opcode m).1
      as (λ b. Reports limit (elim b [ true ↦ worker handler m' ts | false ↦ worker rest m' ts ])) [
        | true ↦ worker-Reports_from limit handler m' ts (trace_opcode-IsMeter limit m h) s
        | false ↦ worker-Reports_from limit rest m' ts (trace_opcode-IsMeter limit m h) s
      ]
worker-Reports_from limit (transfer_out a n rest handler) m ts h s =
    (elim (transfer_error a n)
        as (λ o.
          transfer_error a n ≡ o
          → Reports limit (elim o [
            | none ↦ worker rest m (ts ++ (a, n) ∷ [])
            | some e ↦ worker (handler e) m ts
          ])) [
            | none ↦ λ ok.
                worker-Reports_from limit rest m (ts ++ (a, n) ∷ []) h
                  (All-snoc ts (a, n) s (transfer_error-Passed a n ok))
            | some e ↦ λ _. worker-Reports_from limit (handler e) m ts h s
          ])
      refl
worker-Reports_from limit (call_contract a d n rest) m ts h s =
    λ r. worker-Reports_from limit (rest (call_error r)) m ts h s
worker-Reports_from limit (finish storage) m ts h s =
    let (lo, hi) = gas_spent-bounds limit m h in (lo, hi, s)
worker-Reports_from limit (raise e) m ts h s = gas_spent-bounds limit m h
worker-Reports_from limit out_of_gas m ts h s =
    let e = h.initial in rw e (omega (arith, h.above, h.below), omega arith)
worker-Reports_from limit garbage m ts h s = tt
worker-Reports_from limit crash m ts h s = tt
worker-Reports_from limit hang m ts h s = tt

-- Under a positive gas limit every message of the sandboxed run, whatever the code does and whatever
-- its nested calls answer, reports a gas use from 0 to the limit, and each reported transfer has a
-- positive amount and, for its address, a text of 40 or 64 characters that Python's `int(_, 16)` reads
-- (which also takes a sign, 0x, underscores and spaces).
pub worker-Reports :
    (limit : ℤ) (pr : Program) → pos 1 ≤ℤ limit → Reports limit (worker pr (new_meter limit) [])
worker-Reports limit pr h =
    worker-Reports_from limit pr (new_meter limit) []
      (record { above = omega arith; below = omega arith; initial = refl; live = λ _. h }) tt
