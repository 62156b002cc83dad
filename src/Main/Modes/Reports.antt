-- ===== src/Main/Modes/Reports.antt =====
-- The exit status and the error messages of src/main.cpp.
use netscan.Base.{[], true, ◌∷◌, ◌≡◌}
use netscan.Interface.{Interface}
use netscan.Main.Options.{Config}
use netscan.Main.Output.{Line}
use netscan.Main.Output.Lines.{is_error, errors}
use netscan.Main.Modes.{World, Exit}
use netscan.Main.Modes.Ran.{Refused, Ran}

pub data Reported (w : World) (config : Config) (x : Exit) : Type 0 where
  success : x.status ≡ 0 → errors x.lines ≡ [] → Reported w config x
  failure :
      (line : Line)
      → x.status ≡ 1
      → x.lines ≡ line ∷ []
      → is_error line ≡ true
      → Refused w config line
      → Reported w config x
