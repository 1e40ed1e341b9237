-- ===== src/Command/Suggest.antt =====
-- apps/sarifc/src/command.rs `closest_command`: the command that an unknown word may mean.
use sarif.Base.{
  ℕ, ◌≤◌, ◌<◌, ◌≡◌, refl, Option, none, some, List, [], ◌∷◌, All, All-map, if◌then◌else◌, leb, ltb,
  arith,
}
use mathlib.Core.Path.{subst}
use mathlib.Core.List.{Memᴰ}
use mathlib.Core.List.Memᴰ.{head, tail}
use sarif.Text.{Text, codes}
use sarif.Command.Distance.{edit_distance}

-- COMMAND_NAMES
abbrev pub command_names : List Text
command_names =
    codes "check"
    ∷ codes "doc"
    ∷ codes "format"
    ∷ codes "bootstrap-check"
    ∷ codes "bootstrap-doc"
    ∷ codes "bootstrap-format"
    ∷ codes "run"
    ∷ codes "build"
    ∷ codes "plan"
    ∷ codes "query"
    ∷ codes "help"
    ∷ codes "version"
    ∷ []

-- The choice when `cmd` at `dist` is near.
unfoldable nearer : Text → ℕ → Option (Text × ℕ) → Option (Text × ℕ)
nearer cmd dist none = some (cmd, dist)
nearer cmd dist (some (c, d)) = if ltb dist d then some (cmd, dist) else some (c, d)

-- One round of the loop.
unfoldable consider : Text → Option (Text × ℕ) → Text → Option (Text × ℕ)
unfolding nearer
consider name best cmd =
    let dist = edit_distance name cmd in if leb dist 3 then nearer cmd dist best else best

unfoldable closest : Text → List Text → Option (Text × ℕ) → Option (Text × ℕ)
unfolding consider
closest name [] best = best
closest name (cmd ∷ cmds) best = closest name cmds (consider name best cmd)

first : Option (Text × ℕ) → Option Text
first none = none
first (some (cmd, _)) = some cmd

unfoldable pub closest_command : Text → Option Text
unfolding closest first
closest_command name = first (closest name command_names none)

module _ (name : Text) where
  -- A choice is not farther than a command, and there is a choice if the command is near.
  unfoldable Bounds : Option (Text × ℕ) → Text → Type 0
  Bounds none c = 3 < edit_distance name c
  Bounds (some (_, d)) c = d ≤ edit_distance name c

  -- A choice is a command, near, at its distance.
  unfoldable Found : List Text → Option (Text × ℕ) → Type 0
  Found cmds none = Unit
  Found cmds (some (c, d)) = Memᴰ c cmds × (d ≡ edit_distance name c) × (d ≤ 3)

  consider-Bounds :
      (best : Option (Text × ℕ)) (cmd : Text)
      → Found command_names best
      → Bounds (consider name best cmd) cmd
  unfolding consider nearer Bounds Found
  consider-Bounds none cmd f = ground arith
  consider-Bounds (some (c, d)) cmd (_, _, near) = ground arith

  consider_keeps :
      (best : Option (Text × ℕ)) (cmd c : Text) → Bounds best c → Bounds (consider name best cmd) c
  unfolding consider nearer Bounds
  consider_keeps none cmd c b = ground arith
  consider_keeps (some (x, d)) cmd c b = ground arith

  consider-Found :
      (best : Option (Text × ℕ)) (cmd : Text)
      → Memᴰ cmd command_names
      → Found command_names best
      → Found command_names (consider name best cmd)
  unfolding consider nearer Found
  consider-Found none cmd m f = ground arith
  consider-Found (some (x, d)) cmd m f = ground arith

  closest_keeps :
      (cmds : List Text) (best : Option (Text × ℕ)) (c : Text)
      → Bounds best c
      → Bounds (closest name cmds best) c
  unfolding closest
  closest_keeps [] best c b = b
  closest_keeps (cmd ∷ cmds) best c b =
      closest_keeps cmds (consider name best cmd) c (consider_keeps best cmd c b)

  -- After the loop over `cmds` the choice bounds each of them and is a command.
  closest_correct :
      (cmds : List Text) (best : Option (Text × ℕ))
      → All (λ c. Memᴰ c command_names) cmds
      → Found command_names best
      → All (Bounds (closest name cmds best)) cmds × Found command_names (closest name cmds best)
  unfolding closest
  closest_correct [] best m f = (tt, f)
  closest_correct (cmd ∷ cmds) best m f =
      let next = consider name best cmd in
      let (all, found) = closest_correct cmds next m.1 (consider-Found best cmd m.0 f) in
      ((closest_keeps cmds next cmd (consider-Bounds best cmd f), all), found)

  -- The nearest of the commands, within three edits, or none when all are farther.
  unfoldable pub Nearest : Option Text → Type 0
  Nearest none = All (λ c. 3 < edit_distance name c) command_names
  Nearest (some cmd) =
      Memᴰ cmd command_names
      × (edit_distance name cmd ≤ 3)
      × All (λ c. edit_distance name cmd ≤ edit_distance name c) command_names

  first-Nearest :
      (best : Option (Text × ℕ))
      → All (Bounds best) command_names
      → Found command_names best
      → Nearest (first best)
  unfolding first Nearest Found Bounds
  first-Nearest none all f = all
  first-Nearest (some (cmd, d)) all (m, e, near) = (
    m,
    subst (λ x. x ≤ 3) e near,
    subst (λ x. All (λ c. x ≤ edit_distance name c) command_names) e all,
  )

All-self : {A : Type 0} (xs : List A) → All (λ x. Memᴰ x xs) xs
All-self [] = tt
All-self (x ∷ xs) = (head refl, All-map (λ y m. tail m) xs (All-self xs))

-- The suggestion is a command within three edits of the word and no command is nearer; where there is none,
-- every command is farther than three edits.
pub closest_command-Nearest : (name : Text) → Nearest name (closest_command name)
unfolding closest_command
closest_command-Nearest name =
    let (all, found) =
      closest_correct name command_names none (All-self command_names) (unfold Found in tt) in
    first-Nearest name (closest name command_names none) all found
