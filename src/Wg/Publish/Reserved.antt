-- ===== src/Wg/Publish/Reserved.antt =====
-- Port forwards never take over the host's own SSH port or the port of the management panel.
use vpn_manager.Common.{
  ℕ, String, Bool, true, not, ◌&&◌, ◌≡◌, refl, Option, none, some, List, [], ◌∷◌, ◌++◌, All, map,
  first, select, arith, Bool-cases, if-cases, inl, inr, if◌then◌else◌, ◌==◌,
}
use vpn_manager.Http.{Reply}
use vpn_manager.Http.Attempt.{go}
use vpn_manager.Http.Attempt.Ends.{Ends, Ends-go, Ends-bind, answer-Ends, found_or-eq-go}
use vpn_manager.Wg.Firewall.{Host}
use vpn_manager.Wg.Forwards.{PortForward}
use vpn_manager.Wg.Model.{Interface, Tables}
use vpn_manager.Wg.Publish.{
  Env, Response, save_forward, CreatePortForwardRequest, UpdatePortForwardRequest, panel_port,
  reserved_port, refuse_reserved, find_owned_port_forward, create_port_forward, update_port_forward,
  delete_port_forward, save_update, changed,
}

-- Neither SSH's port nor the panel's is the forward's public port.
abbrev pub is_safe : Option String → PortForward → Bool
is_safe panel pf = not (pf.public_port == 22) && not (panel_port pf.public_port panel)

abbrev pub AllSafe : Option String → Tables → Type 0
AllSafe panel t = All (λ pf. is_safe panel pf ≡ true) t.forwards

refuse_reserved-eq-go :
    {R : Type 0} (port : ℕ) (o : Option String) → refuse_reserved {R = R} port o ≡ go tt → o ≡ none
refuse_reserved-eq-go port none e = refl
refuse_reserved-eq-go port (some why) e = cc

reserved_port-none :
    (env : Env) (t : Tables) (port : ℕ)
    → reserved_port env t port ≡ none
    → (not (port == 22) && not (panel_port port env.server_port)) ≡ true
unfolding reserved_port
reserved_port-none env t port e = elim (Bool-cases (port == 22)) [
  | inl a ↦ ground (arith, a)
  | inr a ↦ elim (Bool-cases (panel_port port env.server_port)) [
    | inl b ↦ ground (arith, a, b)
    | inr b ↦ ground (arith, a, b)
  ]
]

module _ {A : Type 0} where
  All-append : (P : A → Type 0) (xs : List A) (y : A) → All P xs → P y → All P (xs ++ y ∷ [])
  All-append P [] y a p = (p, tt)
  All-append P (x ∷ xs) y (a, rest) p = (a, All-append P xs y rest p)

module _ (p : PortForward → Bool) where
  All-select :
      (q : PortForward → Bool) (xs : List PortForward)
      → All (λ x. p x ≡ true) xs
      → All (λ x. p x ≡ true) (select q xs)
  All-select q [] a = tt
  All-select q (x ∷ xs) (a, rest) = elim (Bool-cases (q x)) [
    | inl e ↦ rw (e, if◌then◌else◌) (a, All-select q xs rest)
    | inr e ↦ rw (e, if◌then◌else◌) (All-select q xs rest)
  ]

  first-All :
      (q : PortForward → Bool) (xs : List PortForward) {x : PortForward}
      → All (λ y. p y ≡ true) xs
      → first q xs ≡ some x
      → p x ≡ true
  first-All q [] a e = cc
  first-All q (y ∷ ys) {x} (a, rest) e = elim (Bool-cases (q y)) [
    | inl c ↦
        let same : ◌≡◌ {A = Option PortForward} (some y) (some x) = rw (c, if◌then◌else◌) at e in
        let eq : y ≡ x = cc in rw (← eq) a
    | inr c ↦ first-All q ys rest (rw (c, if◌then◌else◌) at e)
  ]

module _ {K : Type 0} (h : Host K) (panel : Option String) where
  pub create_port_forward-AllSafe :
      (env : Env) (body : Option CreatePortForwardRequest) (s : Tables × K)
      → env.server_port ≡ panel
      → AllSafe panel s.0
      → AllSafe panel (create_port_forward h env body s).1.0
  unfolding create_port_forward
  create_port_forward-AllSafe env body (t, k) same safe =
      answer-Ends (λ (s : Tables × K). AllSafe panel s.0) safe
        (Ends-bind λ req _. Ends-bind λ _ _. Ends-bind λ _ e. Ends-bind λ iface _.
          Ends-bind λ peer _. Ends-bind λ _ _. Ends-bind λ _ _. Ends-bind λ egress _.
            Ends-bind λ _ _. Ends-bind λ _ _.
              let free =
                reserved_port-none env t req.public_port
                  (refuse_reserved-eq-go req.public_port _ e) in
              Ends-go
                (All-append (λ x. is_safe panel x ≡ true) t.forwards _ safe (rw same at free)))

  save_forward-AllSafe :
      (pf : PortForward) (t : Tables)
      → is_safe panel pf ≡ true
      → AllSafe panel t
      → AllSafe panel (save_forward pf t)
  save_forward-AllSafe pf t ok safe = over t.forwards safe
    where
      over :
          (xs : List PortForward)
          → All (λ x. is_safe panel x ≡ true) xs
          → All (λ x. is_safe panel x ≡ true) (map (λ f. if f.id == pf.id then pf else f) xs)
      over [] a = tt
      over (x ∷ xs) (a, rest) = elim (Bool-cases (x.id == pf.id)) [
        | inl e ↦ rw (e, if◌then◌else◌) (ok, over xs rest)
        | inr e ↦ rw (e, if◌then◌else◌) (a, over xs rest)
      ]

  found_safe :
      (env : Env) (param : String) (t : Tables)
      → AllSafe panel t
      → Ends (λ x. is_safe panel x.0 ≡ true) (find_owned_port_forward {R = Response} env param t)
  unfolding find_owned_port_forward
  found_safe env param t safe = Ends-bind λ id _. Ends-bind λ pf e. Ends-bind λ _ _.
      Ends-bind λ iface _. Ends-go (
        first-All (is_safe panel) (λ f. f.id == id) t.forwards safe
          (found_or-eq-go env.find_fails _ _ _ pf e))

  save_update-AllSafe :
      (env : Env) (req : UpdatePortForwardRequest) (old : PortForward) (iface : Interface)
      (t : Tables) (k : K)
      → is_safe panel old ≡ true
      → AllSafe panel t
      → AllSafe panel (save_update h env req old iface t k).1.0
  unfolding save_update changed
  save_update-AllSafe env req old iface t k ok safe =
      let P = λ (x : Reply Response × (Tables × K)). AllSafe panel x.1.0 in
      let saved = save_forward-AllSafe (changed req old) t ok safe in
      if-cases P env.write_fails _ _ safe (if-cases P (changed req old).enabled _ _ saved saved)

  pub update_port_forward-AllSafe :
      (env : Env) (param : String) (body : Option UpdatePortForwardRequest) (s : Tables × K)
      → AllSafe panel s.0
      → AllSafe panel (update_port_forward h env param body s).1.0
  unfolding update_port_forward
  update_port_forward-AllSafe env param body (t, k) safe =
      answer-Ends (λ (s : Tables × K). AllSafe panel s.0) safe
        (Ends-bind λ found e. Ends-bind λ req _. Ends-bind λ _ _.
          let ok = (found_safe env param t safe).at found e in
          Ends-go (save_update-AllSafe env req found.0 found.1 t _ ok safe))

  pub delete_port_forward-AllSafe :
      (env : Env) (param : String) (s : Tables × K)
      → AllSafe panel s.0
      → AllSafe panel (delete_port_forward h env param s).1.0
  unfolding delete_port_forward
  delete_port_forward-AllSafe env param (t, k) safe =
      answer-Ends (λ (s : Tables × K). AllSafe panel s.0) safe
        (Ends-bind λ found e.
          let P = λ (x : Reply Response × (Tables × K)). AllSafe panel x.1.0 in
          Ends-go (
            if-cases P env.write_fails _ _ safe
              (All-select (is_safe panel) (λ f. not (f.id == found.0.id)) t.forwards safe)))

-- A request on port forwards.
pub data Op : Type 0 where
  create : Env → Option CreatePortForwardRequest → Op
  update : Env → String → Option UpdatePortForwardRequest → Op
  delete : Env → String → Op

abbrev pub env_of : Op → Env
env_of (create env _) = env
env_of (update env _ _) = env
env_of (delete env _) = env

module _ {K : Type 0} (h : Host K) where
  unfoldable pub apply : Op → Tables × K → Tables × K
  apply (create env body) s = (create_port_forward h env body s).1
  apply (update env param body) s = (update_port_forward h env param body s).1
  apply (delete env param) s = (delete_port_forward h env param s).1

  unfoldable pub serve : List Op → Tables × K → Tables × K
  unfolding apply
  serve [] s = s
  serve (op ∷ ops) s = serve ops (apply op s)

  -- Whatever is requested and whatever fails, with one configured port of the panel, no port forward
  -- takes the public port 22 or the panel's, if none had it before.
  pub serve-AllSafe :
      (panel : Option String) (ops : List Op) (s : Tables × K)
      → All (λ op. (env_of op).server_port ≡ panel) ops
      → AllSafe panel s.0
      → AllSafe panel (serve ops s).0
  unfolding serve apply
  serve-AllSafe panel [] s same safe = safe
  serve-AllSafe panel (create env body ∷ ops) s (e, same) safe =
      serve-AllSafe panel ops _ same (create_port_forward-AllSafe h panel env body s e safe)
  serve-AllSafe panel (update env param body ∷ ops) s (e, same) safe =
      serve-AllSafe panel ops _ same (update_port_forward-AllSafe h panel env param body s safe)
  serve-AllSafe panel (delete env param ∷ ops) s (e, same) safe =
      serve-AllSafe panel ops _ same (delete_port_forward-AllSafe h panel env param s safe)
