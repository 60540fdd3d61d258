-- ===== src/Server/Moves.antt =====
-- Each move of the loop and of the user keeps a server sound.
pub mod Opened
pub mod Heard
pub mod Closed
pub mod Counted
pub mod Beaten
use uvx.Prelude.{ℕ, List}
use uvx.Memory.{Returns}
use uvx.Server.{Server}
use uvx.Server.Loop.{System, Move, AllProper, taken, handle, quiet, after}
use uvx.Server.Sound.{Sound}

-- What a handler asks of libuv is proper, and afterwards the server is sound.
pub record Turned (m : Move) (s : System) (ds : List ℕ) (server : Server) : Type 0 where
  pub proper : AllProper (taken m s.pending) server.trace
  pub sound : Sound (after m s server) ds

abbrev pub TurnsTo : Move → System → List ℕ → Type 0
TurnsTo m s ds = Returns (handle m s.clock (quiet s.server)) (Turned m s ds)
