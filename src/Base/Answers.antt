-- ===== src/Base/Answers.antt =====
-- The result of an awaited call.
use mathlib.Core.Option.{Option}
use frpc_multi.Base.Text.{Text}

-- A failure carries the message of an `Error`, if it is one.
pub data Answer (A : Type 0) : Type 0 where
  answered : A → Answer A
  refused : (message : Option Text) → Answer A
