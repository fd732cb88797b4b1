-- ===== src/Pipeline.antt =====
-- The engine as a whole: the intake of engine/internal/api/api.go, the matcher's cycles and its jobs
-- of engine/internal/matcher/matcher.go, over one set of tables and one contract. Requests, cycles and
-- jobs follow each other in any order.
pub mod Jobs
pub mod Paired
pub mod Later
pub mod Sound
pub mod Provable
pub mod Replay
use nyx_darkpool.Base.{Bool, Option, List, [], ◌∷◌, Text}
use nyx_darkpool.Engine.{CreateOrderBody}
use nyx_darkpool.Book.{Payload}
use nyx_darkpool.Intake.{Server, handle_create_order}
use nyx_darkpool.Cycle.{Draw, match_once}
use nyx_darkpool.Settling.{World, Verifier, Attempt, Config, dispatch}

-- What the engine is started with, and the outside code that it calls: the check of a signature, how a
-- payload becomes a blob and is read from one, and the pairing check of a proof.
pub record Setup : Type 0 where
  pub server : Server
  pub config : Config
  pub check_signature : Text → Text → Text → Bool
  pub encode : Payload → Text
  pub decode : Text → Option Payload
  pub verify : Verifier

pub data Event : Type 0 where
  post : Option Text → Option CreateOrderBody → Event
  cycle : Draw → List Text → Event
  job : Text → Attempt → Event

unfoldable pub step : Setup → Event → World → World
step s (post id body) w = record w {
  db = (handle_create_order s.check_signature s.encode s.server id body w.db).db;
}
step s (cycle draw pairs) w = record w { db = (match_once s.decode draw pairs w.db).1 }
step s (job id a) w = dispatch s.config s.verify id a w

unfoldable pub run : Setup → List Event → World → World
run s [] w = w
run s (e ∷ es) w = run s es (step s e w)
