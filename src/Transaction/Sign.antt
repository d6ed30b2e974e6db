-- ===== src/Transaction/Sign.antt =====
-- `Transaction.sign` of minichain/transaction.py, and `is_valid_receiver` of minichain/validators.py.
-- PyNaCl's signing keys are an instance argument.
use mini_chain.Base.{
  ℕ, ◌≡◌, refl, ◌==◌, ◌||◌, String, Bool, true, false, Option, none, some, List, [], ◌∷◌, length,
  str_eq, if◌then◌else◌,
}
use mini_chain.Base.Text.{codes, hex_digit}
use mini_chain.Json.{Json}
use mini_chain.Transaction.{Transaction, to_signing_dict}

pub record Signer (K : Type 0) : Type 0 where
  -- `key.verify_key.encode(encoder=HexEncoder).decode()`
  pub address_of : K → String
  -- `key.sign(payload).signature.hex()`
  pub signature_of : K → Json → String
  -- `SigningKey(bytes.fromhex(text))`, `none` where this raises
  pub read_key : String → Option K

-- `sign`, `none` where it raises.
unfoldable pub sign : {K : Type 0} → ⦃sg : Signer K⦄ → K → Transaction → Option Transaction
sign ⦃sg⦄ key tx =
    if str_eq (sg.address_of key) tx.sender
    then some (record tx { signature = some (sg.signature_of key (to_signing_dict tx)) })
    else none

all_hex : List ℕ → Bool
all_hex [] = true
all_hex (c ∷ cs) = let rest = all_hex cs in elim (hex_digit c) [ none ↦ false | some d ↦ rest ]

-- 40 or 64 hexadecimal digits
unfoldable pub is_valid_receiver : String → Bool
unfolding all_hex hex_digit
is_valid_receiver receiver =
    let n = length (codes receiver) in
    if n == 40 || n == 64 then all_hex (codes receiver) else false

receiver_of_40 : is_valid_receiver "0123456789abcdefABCDEF678901234567890123" ≡ true
unfolding is_valid_receiver
receiver_of_40 = refl

receiver_with_prefix : is_valid_receiver "0x23456789abcdefABCDEF678901234567890123" ≡ false
unfolding is_valid_receiver
receiver_with_prefix = refl
