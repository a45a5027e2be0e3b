-- ===== src/Tests/Saved.antt =====
-- The theorems of what is saved to files, at concrete inputs.
use cled.Common.{
  List, Option, [], ap, arith, drop, nat_eq, none, refl, some, subst, suc, take, true, zero, ℕ,
  ◌++◌, ◌∙◌, ◌∷◌, ◌≡◌,
}
use cled.Common.Utf8.{codes}
use cled.Clipboard.Content.{Chars}
use cled.Lan.Addr.{SocketAddr}
use cled.Lan.Error.{ok}
use cled.Lan.Peers.{Peer}
use cled.Lan.Peers.File.{
  PeerRecord, RemovedRecord, PeerFile, contents, load, loaded, saved_bytes, file_of, to_record,
}
use cled.Lan.Peers.File.Reload.{load-saved_bytes}
use cled.Desktop.Auth.Request.{has_end, read_request_target}
use cled.Desktop.Auth.Request.Pieces.{arriving, request, read_request_target-arriving}
use cled.Desktop.Answer.{done, Ensures}
use cled.Desktop.Auth.{answer}
use cled.Desktop.Auth.Flow.{IdClaims}
use cled.Desktop.Auth.SignIn.{Answers, came_back, sign_in_flow}
use cled.Desktop.Auth.SignIn.Secure.{Kept, sign_in_flow-IsSecure}
use cled.Tests.Desktop.{uuid}

-- A form of files with one peer at no address: each text is ended by a zero.
abbrev put : Chars → List ℕ → List ℕ
put [] rest = 0 ∷ rest
put (c ∷ cs) rest = suc c ∷ put cs rest

abbrev get : List ℕ → Chars × List ℕ
get [] = ([], [])
get (zero ∷ rest) = ([], rest)
get (suc c ∷ rest) = let more = get rest in (c ∷ more.0, more.1)

get-put : (cs : Chars) (rest : List ℕ) → get (put cs rest) ≡ (cs, rest)
get-put [] rest = refl
get-put (c ∷ cs) rest = ap (λ (more : Chars × List ℕ). (c ∷ more.0, more.1)) (get-put cs rest)

abbrev record_bytes : ℕ → PeerRecord → Option SocketAddr → Option (List ℕ)
record_bytes version r none =
    some (version ∷ r.paired_at_ms ∷ put r.device_id (put r.name (put r.public_key [])))
record_bytes version r (some address) = none

abbrev file_bytes : ℕ → List PeerRecord → List RemovedRecord → Option (List ℕ)
file_bytes version (r ∷ []) [] = record_bytes version r r.last_address
file_bytes version _ _ = none

abbrev to_vec : PeerFile → Option (List ℕ)
to_vec file = file_bytes file.version file.peers file.removed

abbrev file_with : ℕ → ℕ → Chars → Chars → Chars → PeerFile
file_with version at id name key = record {
  version = version;
  peers =
      record {
        device_id = id;
        name = name;
        public_key = key;
        paired_at_ms = at;
        last_address = none;
      }
      ∷ [];
  removed = [];
}

abbrev third : ℕ → ℕ → Chars → Chars → Chars × List ℕ → PeerFile
third version at id name key = file_with version at id name key.0

abbrev second : ℕ → ℕ → Chars → Chars × List ℕ → PeerFile
second version at id name = third version at id name.0 (get name.1)

abbrev first : ℕ → ℕ → Chars × List ℕ → PeerFile
first version at id = second version at id.0 (get id.1)

abbrev from_slice : List ℕ → Option PeerFile
from_slice (version ∷ at ∷ rest) = some (first version at (get rest))
from_slice _ = none

read_back :
    (version at : ℕ) (id name key : Chars)
    → from_slice (version ∷ at ∷ put id (put name (put key [])))
      ≡ some (file_with version at id name key)
read_back version at id name key =
    ap (λ x. some (first version at x)) (get-put id (put name (put key [])))
    ∙ ap (λ x. some (second version at id x)) (get-put name (put key []))
    ∙ ap (λ x. some (third version at id name x)) (get-put key [])

record_reads :
    (version : ℕ) (r : PeerRecord) (address : Option SocketAddr) (json : List ℕ)
    → record_bytes version r address ≡ some json
    → from_slice json
      ≡ some (record {
        version = version;
        peers = record r { last_address = address } ∷ [];
        removed = [];
      })
record_reads version r none json h =
    let written : (version ∷ r.paired_at_ms ∷ put r.device_id (put r.name (put r.public_key [])))
        ≡ json =
      cc in
    subst
      (λ j. from_slice j ≡ some (file_with version r.paired_at_ms r.device_id r.name r.public_key))
      written (read_back version r.paired_at_ms r.device_id r.name r.public_key)
record_reads version r (some address) json h = ground arith

file_reads :
    (version : ℕ) (peers : List PeerRecord) (removed : List RemovedRecord) (json : List ℕ)
    → file_bytes version peers removed ≡ some json
    → from_slice json ≡ some (record { version = version; peers = peers; removed = removed })
file_reads version [] removed json h = ground arith
file_reads version (r ∷ []) [] json h = record_reads version r r.last_address json h
file_reads version (r ∷ []) (x ∷ xs) json h = ground arith
file_reads version (r ∷ s ∷ rs) removed json h = ground arith

serde_json :
    (file : PeerFile) (json : List ℕ) → to_vec file ≡ some json → from_slice json ≡ some file
serde_json file json h = file_reads file.version file.peers file.removed json h

abbrev peer : Peer
peer = record {
  device_id = 2;
  name = codes "laptop";
  public_key = 7;
  paired_at_ms = 1;
  last_address = none;
}

abbrev file_of_peer : PeerFile
file_of_peer = file_of uuid (peer ∷ []) []

abbrev json_of_peer : List ℕ
json_of_peer =
    let r = to_record uuid peer in 1 ∷ 1 ∷ put r.device_id (put r.name (put r.public_key []))

saved : saved_bytes uuid to_vec (peer ∷ []) [] ≡ ok json_of_peer
unfolding saved_bytes file_of to_record
saved = refl

load-saved_bytes_example :
    load uuid from_slice (contents json_of_peer) ≡ ok (loaded (some (peer ∷ [], [])))
load-saved_bytes_example =
    load-saved_bytes uuid to_vec from_slice (peer ∷ []) [] json_of_peer serde_json
      ((omega arith, omega arith), tt) tt saved

abbrev read_claims : Chars → Option IdClaims
read_claims payload =
    some
      (record { sub = payload; email = none; name = none; given_name = none; family_name = none })

abbrev answers : Answers
answers = record {
  config = done (record { issuer = codes "https://i/"; client_id = codes "c"; scopes = [] });
  metadata = done (record {
    issuer = codes "https://i";
    authorization_endpoint = codes "https://i/authorize";
    token_endpoint = codes "https://i/token";
    revocation_endpoint = none;
  });
  is_free = λ port. true;
  browser_opened = done tt;
  browser = came_back (done (codes "code"));
  response = answer 200 (
      some (record {
        access_token = codes "h.payload.s";
        refresh_token = some (codes "r");
        expires_in = some 60;
        id_token = none;
      }));
}

sign_in_flow-IsSecure_example :
    Ensures (Kept (came_back (done (codes "code")))) (sign_in_flow read_claims answers)
sign_in_flow-IsSecure_example = sign_in_flow-IsSecure read_claims answers

abbrev redirect : List ℕ
redirect = request (codes "/callback?code=a") (codes "Host: a" ++ 13 ∷ 10 ∷ 13 ∷ 10 ∷ [])

read_request_target-arriving_example :
    read_request_target (arriving (take 7 redirect ∷ drop 7 redirect ∷ []))
    ≡ some (codes "/callback?code=a")
unfolding has_end
read_request_target-arriving_example =
    read_request_target-arriving (codes "/callback?code=a")
      (codes "Host: a" ++ 13 ∷ 10 ∷ 13 ∷ 10 ∷ []) (take 7 redirect ∷ drop 7 redirect ∷ [])
      (omega arith) refl refl (omega arith) refl refl
