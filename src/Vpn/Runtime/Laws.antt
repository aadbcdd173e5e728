-- ===== src/Vpn/Runtime/Laws.antt =====
-- Where the executor writes.
use Prim.Native.String as Str
use vpn_manager.Common.{
  String, Bool, true, false, not, ◌&&◌, ◌||◌, ◌≡◌, refl, subst, Option, List, [], ◌∷◌, All, arith,
  Bool-cases, if-cases, option-cases, inl, inr, if◌then◌else◌, ◌=ₛ◌, ◌==◌,
}
use vpn_manager.Text.{◌⧺◌, split, join, has_prefix, trim_space}
use vpn_manager.Wg.Firewall.{Result, fine, broken}
use vpn_manager.Vpn.Runtime.{
  clean_step, clean_parts, reversed, is_abs, clean, safe_join, dir, up, ApplyPlan, ApplyResult,
  CommandResult, Options, Os, put_at, put_files, run_commands, after_files, in_root, apply,
}

-- a component of a path that names an entry of a directory
abbrev pub IsComponent : String → Type 0
IsComponent c = (c =ₛ "" || c =ₛ "." || c =ₛ "..") ≡ false

-- The path is the root or begins with it and a slash, and none of its components leads upwards.
pub record IsInside (root path : String) : Type 0 where
  pub below : (path =ₛ root || has_prefix path (root ⧺ "/")) ≡ true
  pub parts : List String
  pub spelled : path ≡ "/" ⧺ join "/" parts
  pub plain : All IsComponent parts

up-plain : (out : List String) → All IsComponent out → All IsComponent (up true out)
up-plain [] h = tt
up-plain (top ∷ rest) (p, h) =
    let other : (top =ₛ "..") ≡ false = ground (arith, p) in rw (other, if◌then◌else◌) h

step-plain :
    (out : List String) (c : String) → All IsComponent out → All IsComponent (clean_step true out c)
step-plain out c h = elim (Bool-cases (c =ₛ "" || c =ₛ ".")) [
  | inl e ↦ rw (e, if◌then◌else◌) h
  | inr e ↦ elim (Bool-cases (c =ₛ "..")) [
    | inl d ↦ rw (e, d, if◌then◌else◌) (up-plain out h)
    | inr d ↦ rw (e, d, if◌then◌else◌) (ground (arith, e, d), h)
  ]
]

clean_parts-plain :
    (cs out : List String) → All IsComponent out → All IsComponent (clean_parts true out cs)
unfolding clean_parts
clean_parts-plain [] out h = h
clean_parts-plain (c ∷ cs) out h = clean_parts-plain cs (clean_step true out c) (step-plain out c h)

reversed-plain :
    (cs out : List String)
    → All IsComponent cs
    → All IsComponent out
    → All IsComponent (reversed cs out)
reversed-plain [] out h k = k
reversed-plain (c ∷ cs) out (p, h) k = reversed-plain cs (c ∷ out) h (p, k)

is_abs-append : (root rest : String) → is_abs root ≡ true → is_abs (root ⧺ rest) ≡ true
unfolding has_prefix
is_abs-append Str.[] rest h = ground (arith, h)
is_abs-append (Str.◌∷◌ c s) rest h = ground (arith, h)

clean-IsInside :
    (root path : String)
    → is_abs path ≡ true
    → (clean path =ₛ root || has_prefix (clean path) (root ⧺ "/")) ≡ true
    → IsInside root (clean path)
unfolding clean
clean-IsInside root path rooted h = record {
  below = h;
  parts = reversed (clean_parts true [] (split b'/' path)) [];
  spelled = rw (clean, rooted, if◌then◌else◌) refl;
  plain = reversed-plain _ [] (clean_parts-plain (split b'/' path) [] tt) tt;
}

-- The name is not one that leave for absolute paths takes as it is.
abbrev pub IsBelow : Bool → String → Type 0
IsBelow allow name = (allow && is_abs (clean (trim_space name))) ≡ false

-- A name that is relative, or any name without leave for absolute paths, is accepted by `safeJoin` below an
-- absolute root only with a path inside the root.
pub safe_join-IsInside :
    (root name path : String) (allow : Bool)
    → is_abs root ≡ true
    → IsBelow allow name
    → safe_join root name allow ≡ fine path
    → IsInside root path
unfolding safe_join clean
safe_join-IsInside root name path allow rooted strict made =
    let cleaned = clean (trim_space name) in
    let joined = clean (root ⧺ "/" ⧺ cleaned) in
    elim (Bool-cases
      (cleaned =ₛ "." || has_prefix cleaned "../" || cleaned =ₛ ".." || is_abs cleaned)) [
        | inl e ↦
            let no : ◌≡◌ {A = Result String} (broken "unsafe file path") (fine path) =
              rw (safe_join, strict, e, if◌then◌else◌) at made in
            cc
        | inr e ↦ elim (Bool-cases (not (has_prefix joined (root ⧺ "/")) && not (joined =ₛ root))) [
          | inl d ↦
              let no : ◌≡◌ {A = Result String} (broken "unsafe file path") (fine path) =
                rw (safe_join, strict, e, d, if◌then◌else◌) at made in
              cc
          | inr d ↦
              let found : ◌≡◌ {A = Result String} (fine joined) (fine path) =
                rw (safe_join, strict, e, d, if◌then◌else◌) at made in
              let same : joined ≡ path = cc in
              subst (IsInside root) same (
                clean-IsInside root (root ⧺ "/" ⧺ cleaned) (is_abs-append root _ rooted)
                  (ground (arith, d)))
        ]
      ]

result-cases :
    {A B : Type 0} (Q : B → Type 0) (r : Result A) (f : A → B) (g : String → B)
    → ((a : A) → Q (f a))
    → ((e : String) → Q (g e))
    → Q (elim r [ broken e ↦ g e | fine a ↦ f a ])
result-cases Q (fine a) f g p q = p a
result-cases Q (broken e) f g p q = q e

module _ {K : Type 0} (os : Os K) (P : K → Type 0) where
  -- What the calls on the host keep: making a directory, running a command, and writing a file inside
  -- the root.
  pub record Keeps (root : String) : Type 0 where
    pub mkdir : (path : String) (k : K) → P k → P (os.mkdir_all path k).1
    pub run : (command : String) (k : K) → P k → P (os.run command k).1
    pub write :
        (path content : String) (k : K)
        → IsInside root path
        → P k
        → P (os.write_file path content k).1

  module _ (root : String) (keeps : Keeps root) where
    put_at-keeps :
        (r : Result String) (content : String) (k : K)
        → ((path : String) → r ≡ fine path → IsInside root path)
        → P k
        → P (put_at os r content k).1
    unfolding put_at
    put_at-keeps (broken e) content k inside p = p
    put_at-keeps (fine path) content k inside p =
        let Q = λ (x : Result String × K). P x.1 in
        let made = os.mkdir_all (dir path) k in
        let dirs = keeps.mkdir (dir path) k p in
        let written = os.write_file path content made.1 in
        let done = keeps.write path content made.1 (inside path refl) dirs in
        option-cases Q made.0 _ _ (option-cases Q written.0 _ _ done (λ e _. done)) (λ e _. dirs)

    put_files-keeps :
        (allow : Bool) (files : List (String × String)) (k : K)
        → is_abs root ≡ true
        → All (λ file. IsBelow allow file.0) files
        → P k
        → P (put_files os root allow files k).1
    unfolding put_files
    put_files-keeps allow [] k rooted strict p = p
    put_files-keeps allow ((name, content) ∷ files) k rooted (strict, stricts) p =
        let one =
          put_at-keeps (safe_join root name allow) content k
            (λ path made. safe_join-IsInside root name path allow rooted strict made) p in
        result-cases (λ (x : Result (List String) × K). P x.1)
          (put_at os (safe_join root name allow) content k).0 _ _
          (λ path. put_files-keeps allow files _ rooted stricts one) (λ e. one)

    run_commands-keeps : (commands : List String) (k : K) → P k → P (run_commands os commands k).1
    unfolding run_commands
    run_commands-keeps [] k p = p
    run_commands-keeps (text ∷ texts) k p =
        let Q = λ (x : (List CommandResult × Option String) × K). P x.1 in
        let command = trim_space text in
        let one = keeps.run command k p in
        if-cases Q (command =ₛ "") _ _ (run_commands-keeps texts k p) (
          if-cases Q ((os.run command k).0.exit_code == 0) _ _ (run_commands-keeps texts _ one) one)

    after_files-keeps :
        (commands : List String) (out : Result (List String) × K)
        → P out.1
        → P (after_files os root commands out).1
    unfolding after_files
    after_files-keeps commands (broken e, k) p = p
    after_files-keeps commands (fine paths, k) p = run_commands-keeps commands k p

  in_root-keeps :
      (opts : Options) (plan : ApplyPlan) (r : Result String) (k : K)
      → All (λ file. IsBelow opts.allow_absolute_paths file.0) plan.files
      → ((root : String) → r ≡ fine root → (is_abs root ≡ true) × Keeps root)
      → P k
      → P (in_root os opts plan r k).1
  unfolding in_root
  in_root-keeps opts plan (broken e) k strict ok p = p
  in_root-keeps opts plan (fine root) k strict ok p =
      let known = ok root refl in
      let made = os.mkdir_all root k in
      let dirs = known.1.mkdir root k p in
      option-cases (λ (x : (ApplyResult × Option String) × K). P x.1) made.0 _ _
        (after_files-keeps root known.1 plan.commands _ (
          put_files-keeps root known.1 opts.allow_absolute_paths plan.files made.1 known.0 strict
            dirs))
        (λ e _. dirs)

  -- Applying a plan keeps what making directories, running commands and writing files inside the root
  -- keep: every file that the executor itself writes is inside the root. This is for a plan in which no
  -- name of a file is absolute, or any plan where absolute paths are not allowed, and `Abs` is taken to
  -- return absolute paths.
  pub apply-keeps :
      (opts : Options) (plan : ApplyPlan) (k : K)
      → All (λ file. IsBelow opts.allow_absolute_paths file.0) plan.files
      → ((root : String) → os.abs opts.root_dir ≡ fine root → (is_abs root ≡ true) × Keeps root)
      → P k
      → P (apply os opts plan k).1
  unfolding apply
  apply-keeps opts plan k strict ok p =
      let Q = λ (x : (ApplyResult × Option String) × K). P x.1 in
      if-cases Q (opts.root_dir =ₛ "") _ _ p (
        if-cases Q (not opts.execution_enabled) _ _ p
          (in_root-keeps opts plan (os.abs opts.root_dir) k strict ok p))
