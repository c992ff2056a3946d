-- ===== src/RouteRuntime/Machine.antt =====
-- What the Caddy runtime calls and does not implement: the file system, the command runner and the
-- clock, over a state of the world. A command is given by its arguments after `docker`.
use zerobased.Base.{String, Option, List}
use zerobased.Base.Dict.{Dict}
use zerobased.Zberr.Errors.{Error}

pub record Machine : Type 1 where
  pub World : Type 0
  -- os.MkdirAll, os.WriteFile
  pub mkdir_all : String → World → Error × World
  pub write_file : String → String → World → Error × World
  -- `commandRunner.Run`: its output and its error
  pub run : List String → World → String × Error × World
  -- The `select` between two attempts: `ctx.Err()` if the context is done, else `nil`.
  pub pause : World → Error × World
  -- `json.Unmarshal` of a map of strings: an error, or a map, which `null` leaves nil
  pub parse_labels : String → Error × Option (Dict String)
