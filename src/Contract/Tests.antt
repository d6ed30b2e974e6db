-- ===== src/Contract/Tests.antt =====
-- The metering theorem at a run that uses every opcode it was given.
use mini_chain.Base.{[], arith}
use mini_chain.Base.Int.{pos}
use mini_chain.Json.{obj, end}
use mini_chain.Platform.{Program, opcode, transfer_out, call_contract, finish, raise, out_of_gas}
use mini_chain.Contract.{worker, new_meter}
use mini_chain.Contract.Metering.{Reports, worker-Reports}

abbrev program : Program
program =
    opcode (transfer_out "not an address" (pos 5) (finish (obj end)) raise)
      (call_contract "c1" "go" (pos 1) (λ _. out_of_gas))

worker-Reports_example : Reports (pos 1) (worker program (new_meter (pos 1)) [])
worker-Reports_example = worker-Reports (pos 1) program (omega arith)
