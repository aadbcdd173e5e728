-- ===== src/Wg/Addresses/Allocation.antt =====
-- What `NextFreeIP` returns is free and acceptable.
use vpn_manager.Common.{
  ℕ, zero, suc, String, true, false, ◌||◌, ◌≡◌, refl, sym, ap, ◌∙◌, Option, none, some, List, [],
  ◌∷◌, map, any, arith, Bool-cases, inl, inr, if◌then◌else◌, any-map, ◌=ₛ◌, =ₛ_iff,
}
use vpn_manager.Text.{◌⧺◌, trim_space}
use vpn_manager.Wg.Firewall.{Result, fine, broken}
use vpn_manager.Wg.Addresses.{
  Address, Network, Net, same_address, contains, inc_ip, is_used, next_free, fuel_for, next_free_ip,
  checked_ip, validate_ip_in_cidr,
}

-- What the loop may hand out.
record IsFree (print : Address → String) (net : Network) (used : List String) (s : String)
    : Type 0 where
  address : Address
  printed : s ≡ print address
  inside : contains net address ≡ true
  other : same_address address net.ip ≡ false
  unused : is_used used s ≡ false

module _ (print : Address → String) (net : Network) (used : List String) where
  next_free-IsFree :
      (fuel : ℕ) (c : Address) (s : String)
      → next_free print net used fuel c ≡ some (fine s)
      → IsFree print net used s
  unfolding next_free
  next_free-IsFree zero c s h = cc
  next_free-IsFree (suc fuel) c s h =
      let next = inc_ip c in
      elim (Bool-cases (contains net next)) [
        | inr out ↦
            let no : ◌≡◌ {A = Option (Result String)} (some (broken "no free addresses left"))
                (some (fine s)) =
              rw (next_free, out) at h in
            cc
        | inl more ↦ elim (Bool-cases (same_address next net.ip || is_used used (print next))) [
          | inr free ↦
              let found : ◌≡◌ {A = Option (Result String)} (some (fine (print next)))
                  (some (fine s)) =
                rw (next_free, more, free) at h in
              let same : print next ≡ s = cc in
              let clear : is_used used (print next) ≡ false = ground (arith, free) in
              record {
                address = next;
                printed = sym same;
                inside = more;
                other = ground (arith, free);
                unused = ap (is_used used) (sym same) ∙ clear;
              }
          | inl taken ↦ next_free-IsFree fuel next s (rw (next_free, more, taken) at h)
        ]
      ]

pub same_address-eq : (a b : Address) → same_address a b ≡ true → a ≡ b
same_address-eq [] [] h = refl
same_address-eq [] (y ∷ ys) h = cc
same_address-eq (x ∷ xs) [] h = cc
same_address-eq (x ∷ xs) (y ∷ ys) h =
    let first : x ≡ y = ground (arith, h) in
    let rest = same_address-eq xs ys (ground (arith, h)) in cc

module _ (net : Net) (cidr s : String) where
  accepted :
      (server : Address) (n : Network) (taken : List String)
      → ((a : Address) → net.print a ≡ s → net.parse_ip (trim_space s) ≡ some a)
      → net.parse_cidr (trim_space cidr) ≡ fine (server, n)
      → IsFree net.print n (net.print server ∷ taken) s
      → validate_ip_in_cidr net s cidr ≡ none
  unfolding validate_ip_in_cidr checked_ip
  accepted server n taken reads parsed free =
      let apart : same_address free.address server ≡ false =
        elim (Bool-cases (same_address free.address server)) [
          | inr e ↦ e
          | inl e ↦
              let same : net.print server ≡ s =
                ap net.print (sym (same_address-eq free.address server e)) ∙ sym free.printed in
              let yes = (=ₛ_iff (net.print server) s).1 same in ground (arith, yes, free.unused)
        ] in
      let own = reads free.address (sym free.printed) in
      rw
        (
          validate_ip_in_cidr, own, parsed, checked_ip, free.inside, apart, free.other,
          if◌then◌else◌,
        )
        refl

  -- An address that `NextFreeIP` hands out passes `ValidateIPInCIDR` for the interface's address, and is none
  -- of the taken ones, where parsing it reads back the address that it is printed from and the interface's address has no
  -- space around it.
  pub next_free_ip-accepted :
      (taken : List String)
      → next_free_ip net cidr taken ≡ some (fine s)
      → ((a : Address) → net.print a ≡ s → net.parse_ip (trim_space s) ≡ some a)
      → trim_space cidr ≡ cidr
      → (validate_ip_in_cidr net s cidr ≡ none) × (any (λ u. trim_space u =ₛ s) taken ≡ false)
  unfolding next_free_ip
  next_free_ip-accepted taken h reads trimmed = over (net.parse_cidr cidr) refl h
    where
      over :
          (parsed : Result (Address × Network))
          → net.parse_cidr cidr ≡ parsed
          → elim parsed [
            | broken e ↦ some (broken ("invalid interface address: " ⧺ e))
            | fine (ip, network) ↦
                next_free net.print network
                  (net.print ip ∷ map trim_space taken)
                  (fuel_for network.ip)
                  network.ip
          ]
            ≡ some (fine s)
          → (validate_ip_in_cidr net s cidr ≡ none) × (any (λ u. trim_space u =ₛ s) taken ≡ false)
      over (broken e) p h = cc
      over (fine (ip, network)) p h =
          let free =
            next_free-IsFree net.print network (net.print ip ∷ map trim_space taken)
              (fuel_for network.ip) network.ip s h in
          let left : any (λ u. u =ₛ s) (map trim_space taken) ≡ false =
            ground (arith, free.unused) in
          (
            accepted ip network (map trim_space taken) reads
                (ap (λ (t : String). net.parse_cidr t) trimmed ∙ p) free,
            sym (any-map (λ u. u =ₛ s) trim_space taken) ∙ left,
          )
