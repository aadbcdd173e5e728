-- ===== src/Vpn/Slug.antt =====
-- `sanitizeInstanceName` of backend/openvpn/runtime.go and `sanitizeRefPart` of
-- backend/secrets/crypto.go, whose bodies are the same.
pub mod Laws
use Prim.Native.Char.{Char, code}
use Prim.Native.String.{[], ◌∷◌}
use vpn_manager.Common.{String, Bool, true, false, ◌&&◌, ◌||◌, leb, ◌==◌, if◌then◌else◌, ◌≡◌, refl}
use vpn_manager.Text.{trim_space, to_lower, trim_func}

-- what the pattern `[^a-z0-9-]+` does not match
abbrev pub is_slug_char : Char → Bool
is_slug_char c =
    (leb 97 (code c) && leb (code c) 122) || (leb 48 (code c) && leb (code c) 57) || code c == b'-'

abbrev pub dash_of : Char → Char
dash_of c = if code c == b'_' then "-" else c

-- `ReplaceAll(clean, "_", "-")`
unfoldable pub dashes : String → String
dashes [] = []
dashes (c ∷ s) = dash_of c ∷ dashes s

-- `ReplaceAllString(clean, "-")` with the pattern; `run` is whether a match has begun
unfoldable pub collapse : Bool → String → String
collapse run [] = []
collapse run (c ∷ s) =
    let kept = collapse false s in
    let skipped = collapse true s in
    if is_slug_char c then c ∷ kept else if run then skipped else "-" ∷ skipped

abbrev pub is_dash : Char → Bool
is_dash c = code c == b'-'

-- `sanitizeInstanceName`
unfoldable pub sanitize_instance_name : String → String
unfolding dashes collapse trim_space to_lower trim_func
sanitize_instance_name name =
    trim_func is_dash (collapse false (dashes (to_lower (trim_space name))))

-- `sanitizeRefPart`
unfoldable pub sanitize_ref_part : String → String
unfolding sanitize_instance_name
sanitize_ref_part value = sanitize_instance_name value

slugs :
    (sanitize_instance_name "  My_Office  VPN! " ≡ "my-office-vpn")
    × (sanitize_instance_name "--../etc" ≡ "etc")
unfolding sanitize_instance_name
slugs = (refl, refl)
