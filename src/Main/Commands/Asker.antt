-- ===== src/Main/Commands/Asker.antt =====
-- `process_command`: who its messages go to.

use fast.Prelude.{
  Bool, Bytes, List, Option, Option-cases, [], arith, codes, false, inl, inr, map, none, refl, some,
  true, ℕ, ◌&&◌, ◌++◌, ◌==◌, ◌∷◌, ◌≡◌,
}
use fast.Queue.{Effect}
use fast.Command.{Command, command_name}
use fast.Main.{Library}
use fast.Main.Process.{Action, command_effect, message, message_nozero, storage, write_block}
use fast.Main.Commands.{done, tell}

-- Messages and blocks of bytes go to the connection that sent the command only.
abbrev pub is_to : {A : Type 0} → Option ℕ → Action A → Bool
is_to none (message d text) = false
is_to (some c) (message d text) = c == d
is_to none (message_nozero d text) = false
is_to (some c) (message_nozero d text) = c == d
is_to none (write_block d bytes) = false
is_to (some c) (write_block d bytes) = c == d
is_to connection (storage e) = true
is_to connection (command_effect e) = true

abbrev pub all_to : {A : Type 0} → Option ℕ → List (Action A) → Bool
all_to connection [] = true
all_to connection (a ∷ as') = is_to connection a && all_to connection as'

module _ {A : Type 0} (connection : Option ℕ) where
  pub append-all_to :
      (as' bs : List (Action A))
      → all_to connection as' ≡ true
      → all_to connection bs ≡ true
      → all_to connection (as' ++ bs) ≡ true
  append-all_to [] bs first second = second
  append-all_to (a ∷ as') bs first second = ground (arith, first, append-all_to as' bs)

  pub storage-all_to : (es : List (Effect A)) → all_to connection (map storage es) ≡ true
  storage-all_to [] = refl
  storage-all_to (e ∷ es) = storage-all_to es

pub effect-all_to :
    (A : Type 0) (connection : Option ℕ) (es : List (Effect Bytes))
    → all_to {A = A} connection (map command_effect es) ≡ true
effect-all_to A connection [] = refl
effect-all_to A connection (e ∷ es) = effect-all_to A connection es

module _ (lib : Library) where
  pub tell-all_to :
      (connection : Option ℕ) (text : Bytes) → all_to connection (tell lib connection text) ≡ true
  unfolding tell
  tell-all_to none text = refl
  tell-all_to (some c) text = ground arith

  pub done-all_to :
      (connection : Option ℕ) (command : Command)
      → all_to connection (done lib connection command) ≡ true
  unfolding done
  done-all_to connection command = elim (Option-cases (command_name command)) [
    | inl k ↦ ground (arith, k)
    | inr (name, k) ↦ ground (arith, k, tell-all_to connection (name ++ codes "_done"))
  ]
