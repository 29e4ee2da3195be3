-- ===== src/Examples/Tokens.antt =====
-- Tokens, references and relative paths at concrete inputs.
use feather_mesh.Prelude.{arith, ◌≡◌, refl, ◌↔◌, codes, ok}
use feather_mesh.Peer.Token.{validate_token, reference, parse_reference}
use feather_mesh.Peer.Token.References.{
  IsToken, validate_token_iff, parse_reference-reference, parse_reference_sound,
}
use feather_mesh.Examples.Publishing.{publishing}

lab-IsToken : IsToken (codes "lab-1")
lab-IsToken = record {
  present = refl;
  chars = (ground arith, (ground arith, (ground arith, (ground arith, (ground arith, tt)))));
}

obs-IsToken : IsToken (codes "obs")
obs-IsToken = record { present = refl; chars = (ground arith, (ground arith, (ground arith, tt))) }

validate_token_iff_example :
    (validate_token "namespace" (codes "lab-1") ≡ ok tt) ↔ IsToken (codes "lab-1")
validate_token_iff_example = validate_token_iff "namespace" (codes "lab-1")

parse_reference-reference_example :
    parse_reference (reference (codes "lab-1") (codes "obs")) ≡ ok (codes "lab-1", codes "obs")
parse_reference-reference_example =
    parse_reference-reference (codes "lab-1") (codes "obs") lab-IsToken obs-IsToken

parsed : parse_reference (codes "product://lab/obs") ≡ ok (codes "lab", codes "obs")
unfolding publishing parse_reference
parsed = refl

parse_reference_sound_example :
    (codes "product://lab/obs" ≡ reference (codes "lab") (codes "obs"))
    × IsToken (codes "lab")
    × IsToken (codes "obs")
parse_reference_sound_example =
    parse_reference_sound (codes "product://lab/obs") (codes "lab") (codes "obs") parsed
