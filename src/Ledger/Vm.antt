-- ===== src/Ledger/Vm.antt =====
-- The virtual machine behind EVMC (vm/vm.hpp and core.cpp's callVm), which is not in this
-- repository: an execution reads and changes the accounts through its host.
use likelib_utonhack.Prelude.{ℕ, nat_eq, bytes_equality}
use likelib_utonhack.Bytes.{Bytes}
use likelib_utonhack.Address.{Address}
use likelib_utonhack.Transaction.{Transaction, Balance}
use likelib_utonhack.States.{States}
use likelib_utonhack.Block.{Fields}

-- The status codes that core.cpp tells apart.
pub data EvmcStatus : Type 0 where
  success revert other : EvmcStatus

pub record EvalResult : Type 0 where
  pub status : EvmcStatus
  pub gas_left : ℕ
  pub output : Bytes

pub record Message : Type 0 where
  pub sender : Address
  pub destination : Address
  pub gas : ℕ
  pub value : Balance
  pub input : Bytes

pub record Machine : Type 0 where
  pub execute : States → Fields → Transaction → Message → Bytes → EvalResult × States
