-- ===== src/Vpn/Runtime.antt =====
-- backend/runtimeexec/executor.go: writing the files of a plan below a root directory and running its
-- commands. `K` is the state of the host, whose calls are parameters; Go's path/filepath is modelled for
-- the separator `/`. A plan's files come in the order in which Go iterates over their map.
pub mod Laws
use vpn_manager.Common.{
  ℕ, String, Bool, true, false, not, ◌&&◌, ◌||◌, Option, none, some, List, [], ◌∷◌, ◌++◌, ◌==◌,
  ◌=ₛ◌, if◌then◌else◌,
}
use vpn_manager.Text.{◌⧺◌, split, join, has_prefix, trim_space}
use vpn_manager.Wg.Firewall.{Result, fine, broken}

-- `..` after the components so far, the last of them first
abbrev pub up : Bool → List String → List String
up rooted [] = if rooted then [] else ".." ∷ []
up rooted (top ∷ rest) = if top =ₛ ".." then ".." ∷ top ∷ rest else rest

abbrev pub clean_step : Bool → List String → String → List String
clean_step rooted out c =
    if c =ₛ "" || c =ₛ "." then out else if c =ₛ ".." then up rooted out else c ∷ out

unfoldable pub clean_parts : Bool → List String → List String → List String
clean_parts rooted out [] = out
clean_parts rooted out (c ∷ cs) = clean_parts rooted (clean_step rooted out c) cs

abbrev pub reversed : List String → List String → List String
reversed [] out = out
reversed (c ∷ cs) out = reversed cs (c ∷ out)

-- `filepath.IsAbs`
abbrev pub is_abs : String → Bool
is_abs path = has_prefix path "/"

abbrev relative : List String → String
relative [] = "."
relative (c ∷ cs) = join "/" (c ∷ cs)

-- `filepath.Clean`
unfoldable pub clean : String → String
unfolding clean_parts split join
clean path =
    let parts = reversed (clean_parts (is_abs path) [] (split b'/' path)) [] in
    if is_abs path then "/" ⧺ join "/" parts else relative parts

-- `filepath.Dir`
abbrev up_to_slash : List String → String
up_to_slash [] = ""
up_to_slash (p ∷ []) = ""
up_to_slash (p ∷ q ∷ ps) = p ⧺ "/" ⧺ up_to_slash (q ∷ ps)

unfoldable pub dir : String → String
unfolding clean split
dir path = clean (up_to_slash (split b'/' path))

-- `safeJoin`
unfoldable pub safe_join : String → String → Bool → Result String
unfolding clean trim_space has_prefix
safe_join root name allow_absolute =
    let cleaned = clean (trim_space name) in
    let path = clean (root ⧺ "/" ⧺ cleaned) in
    if allow_absolute && is_abs cleaned
    then (if cleaned =ₛ "/" then broken "unsafe file path" else fine cleaned)
    else if cleaned =ₛ "." || has_prefix cleaned "../" || cleaned =ₛ ".." || is_abs cleaned
    then broken "unsafe file path"
    else if not (has_prefix path (root ⧺ "/")) && not (path =ₛ root)
    then broken "unsafe file path"
    else fine path

-- `CommandResult`, `ApplyPlan`, `Options` and `ApplyResult`
pub record CommandResult : Type 0 where
  pub command : String
  pub exit_code : ℕ
  pub output : String
  pub error : String

pub record ApplyPlan : Type 0 where
  pub files : List (String × String)
  pub commands : List String

pub record Options : Type 0 where
  pub root_dir : String
  pub execution_enabled : Bool
  pub allow_absolute_paths : Bool

pub record ApplyResult : Type 0 where
  pub status : String
  pub root_dir : String
  pub files : List String
  pub commands : List CommandResult

-- What a host offers: `filepath.Abs`, `MkdirAll`, `WriteFile`, and the runner of commands.
pub record Os (K : Type 0) : Type 0 where
  pub abs : String → Result String
  pub mkdir_all : String → K → Option String × K
  pub write_file : String → String → K → Option String × K
  pub run : String → K → CommandResult × K

abbrev pub nothing : ApplyResult
nothing = record { status = ""; root_dir = ""; files = []; commands = [] }

module _ {K : Type 0} (os : Os K) where
  -- one file: its path, or the error
  put_at : Result String → String → K → Result String × K
  unfolding dir
  put_at (broken e) content k = (broken e, k)
  put_at (fine path) content k =
      let made = os.mkdir_all (dir path) k in
      let written = os.write_file path content made.1 in
      elim made.0 [
        | some e ↦ (broken e, made.1)
        | none ↦ elim written.0 [ some e ↦ (broken e, written.1) | none ↦ (fine path, written.1) ]
      ]

  unfoldable pub put_files : String → Bool → List (String × String) → K → Result (List String) × K
  unfolding put_at safe_join
  put_files root allow [] k = (fine [], k)
  put_files root allow ((name, content) ∷ files) k =
      let one = put_at (safe_join root name allow) content k in
      let rest = put_files root allow files one.1 in
      elim one.0 [
        | broken e ↦ (broken e, one.1)
        | fine path ↦
            (elim rest.0 [ broken e ↦ broken e | fine paths ↦ fine (path ∷ paths) ], rest.1)
      ]

  -- The results of the commands that ran, and the error of the one that failed.
  unfoldable pub run_commands : List String → K → (List CommandResult × Option String) × K
  unfolding trim_space
  run_commands [] k = (([], none), k)
  run_commands (text ∷ texts) k =
      let command = trim_space text in
      let skipped = run_commands texts k in
      let one = os.run command k in
      let rest = run_commands texts one.1 in
      if command =ₛ ""
      then skipped
      else if one.0.exit_code == 0
      then ((one.0 ∷ rest.0.0, rest.0.1), rest.1)
      else ((one.0 ∷ [], some ("command failed: " ⧺ command ⧺ ": " ⧺ one.0.error)), one.1)

  after_files : String → List String → Result (List String) × K → (ApplyResult × Option String) × K
  unfolding run_commands
  after_files root commands (broken e, k) = ((nothing, some e), k)
  after_files root commands (fine paths, k) =
      let out = run_commands commands k in
      (
        (
          record { status = "applied"; root_dir = root; files = paths; commands = out.0.0 },
          out.0.1,
        ),
        out.1,
      )

  in_root : Options → ApplyPlan → Result String → K → (ApplyResult × Option String) × K
  unfolding put_files after_files
  in_root opts plan (broken e) k = ((nothing, some e), k)
  in_root opts plan (fine root) k =
      let made = os.mkdir_all root k in
      elim made.0 [
        | some e ↦ ((nothing, some e), made.1)
        | none ↦
            after_files root plan.commands
              (put_files root opts.allow_absolute_paths plan.files made.1)
      ]

  -- `Apply`: the result and the error
  unfoldable pub apply : Options → ApplyPlan → K → (ApplyResult × Option String) × K
  unfolding in_root
  apply opts plan k =
      if opts.root_dir =ₛ ""
      then ((nothing, some "runtime root dir is required"), k)
      else if not opts.execution_enabled
      then ((nothing, some "VPN execution is disabled"), k)
      else in_root opts plan (os.abs opts.root_dir) k
