-- ===== src/Ssh/KnownHosts/Tests.antt =====
-- The database of host keys at concrete inputs. Base64 is the identity here, no salt verifies, and
-- keys are compared as texts.
use remote_desktop_tool.Prelude.{ℕ, ◌≡◌, refl, Bool, true, List, [], ◌∷◌, none, some, arith}
use remote_desktop_tool.Text.{same_text}
use remote_desktop_tool.Text
use remote_desktop_tool.Ssh.KnownHosts.Wildcard.{wildcard_match, accepts, loop, only_stars}
use remote_desktop_tool.Ssh.KnownHosts.Wildcard.Meaning.{Matches}
use remote_desktop_tool.Ssh.KnownHosts.Wildcard.Decides.{Decides, wildcard_match-Decides}
use remote_desktop_tool.Ssh.KnownHosts.Wildcard.Ends.{wildcard_match-ends}
use remote_desktop_tool.Ssh.KnownHosts.Pattern.{
  Library, split_host_port, hashed_body, plain_matches, pattern_matches,
}
use remote_desktop_tool.Ssh.KnownHosts.Pattern.Laws.{IsPlainHost}
use remote_desktop_tool.Ssh.KnownHosts.Entry.{
  Marker, KnownHostEntry, negation, matches_from, matches,
}
use remote_desktop_tool.Ssh.KnownHosts.{trusted, check_from, check}
use remote_desktop_tool.Ssh.KnownHosts.Verdict.{verdict, check-verdict}

abbrev ascii : Library
ascii = record {
  lower_char = λ c. c;
  lower_text = λ s. s;
  base64_encode = λ s. s;
  base64_decode = λ s. some s;
  verify = λ salt. none;
  ct_eq = same_text;
  fingerprint = λ key. key;
}

-- "box" and "*.b".
abbrev box : List ℕ
box = b'b' ∷ b'o' ∷ b'x' ∷ []

abbrev any_b : List ℕ
any_b = b'*' ∷ b'.' ∷ b'b' ∷ []

abbrev a_b : List ℕ
a_b = b'a' ∷ b'.' ∷ b'b' ∷ []

backtracks : wildcard_match (λ c. c) any_b (b'a' ∷ b'.' ∷ b'.' ∷ b'b' ∷ []) ≡ some true
unfolding wildcard_match loop accepts only_stars
backtracks = refl

wildcard_match-Decides_example :
    Decides (Matches (λ c. c) any_b a_b) (wildcard_match (λ c. c) any_b a_b)
wildcard_match-Decides_example =
    wildcard_match-Decides (λ c. c) any_b a_b (ground arith, (ground arith, (ground arith, tt)))

wildcard_match-ends_example : (b : Bool) × (wildcard_match (λ c. c) any_b a_b ≡ some b)
wildcard_match-ends_example = wildcard_match-ends (λ c. c) any_b a_b

abbrev entry : Marker → KnownHostEntry
entry marker = record {
  marker = marker;
  patterns = box ∷ (b'!' ∷ any_b) ∷ [];
  key_type = b'r' ∷ [];
  key = 1 ∷ 2 ∷ [];
  comment = [];
  line = 1;
}

check-verdict_example :
    check ascii (entry Marker.plain ∷ []) box 22 (b'r' ∷ []) (3 ∷ [])
    ≡ verdict ascii box 22 (b'r' ∷ []) (3 ∷ []) (entry Marker.plain ∷ [])
check-verdict_example = check-verdict ascii box 22 (b'r' ∷ []) (3 ∷ []) (entry Marker.plain ∷ [])

-- A trusted line in front hides a revoked line of the same key.
trusted_first :
    check ascii (entry Marker.plain ∷ entry Marker.revoked ∷ []) box 22 (b'r' ∷ []) (1 ∷ 2 ∷ [])
    ≡ trusted
unfolding check check_from matches matches_from negation pattern_matches hashed_body plain_matches
    split_host_port Text.split_once Text.rsplit_once wildcard_match loop accepts only_stars
trusted_first = refl

box-IsPlainHost : IsPlainHost ascii box
box-IsPlainHost = record {
  lower = (refl, (refl, (refl, tt)));
  starless = (ground arith, (ground arith, (ground arith, tt)));
  no_star = (ground arith, (ground arith, (ground arith, tt)));
  no_bang = (ground arith, (ground arith, (ground arith, tt)));
  no_bar = (ground arith, (ground arith, (ground arith, tt)));
  no_open = (ground arith, (ground arith, (ground arith, tt)));
  no_close = (ground arith, (ground arith, (ground arith, tt)));
  no_colon = (ground arith, (ground arith, (ground arith, tt)));
}
