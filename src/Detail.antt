-- ===== src/Detail.antt =====
-- crates/zerem-core/src/detail.rs and the end of crates/zerem-engine/src/map.rs: the insides of one
-- torrent, as its panel shows them. The peers that the library reports are an argument, with `none` for a
-- torrent that is not live.
use zerem.Prelude.{
  ℕ, ◌+◌, ◌*◌, ◌%◌, ◌^◌, Bool, true, false, Option, none, some, List, [], ◌∷◌, get_elem?, map, leb,
  not, get_or,
}
use zerem.Prelude.Text.{Text, codes, text_ltb}
use zerem.Prelude.Paths.{FilePath}
use zerem.Prelude.Sorting.{sort}
use zerem.Prelude.Words.{checked_div}
use zerem.Mapping.{Transport, tcp, utp, socks, unknown, transport_of}

pub record FileRow : Type 0 where
  pub path : Text
  pub size : ℕ
  pub done : ℕ
  pub wanted : Bool
  pub first : Bool

unfoldable pub file_is_complete : FileRow → Bool
file_is_complete f = leb f.size f.done

-- Hundredths of a per cent; `done * 10_000` is of u64.
unfoldable pub file_progress_bp : FileRow → ℕ
file_progress_bp f = get_or (checked_div ((f.done * 10000) % 2 ^ 64) f.size) 0

unfoldable pub transport_label : Transport → Text
transport_label tcp = codes "TCP"
transport_label utp = codes "uTP"
transport_label socks = codes "SOCKS"
transport_label unknown = codes "—"

pub record PeerRow : Type 0 where
  pub addr : Text
  pub client : Option Text
  pub transport : Transport
  pub state : Text
  pub downloaded : ℕ
  pub uploaded : ℕ

pub record Details : Type 0 where
  pub id : ℕ
  pub files : List FileRow
  pub peers : List PeerRow

-- What the library reports of a peer.
pub record PeerStats : Type 0 where
  pub addr : Text
  pub client_name : Option Text
  pub conn_kind : Option Text
  pub state : Text
  pub fetched_bytes : ℕ
  pub uploaded_bytes : ℕ

-- The files from an index on, with the progress, the ticks and the pins that stand at their places.
abbrev pub file_rows :
    (FilePath → Text) → ℕ → List ℕ → List Bool → List Bool → List (FilePath × ℕ) → List FileRow
file_rows show i progress wanted first [] = []
file_rows show i progress wanted first ((path, len) ∷ files) =
    record {
      path = show path;
      size = len;
      done = get_or (get_elem? progress i) 0;
      wanted = get_or (get_elem? wanted i) true;
      first = get_or (get_elem? first i) false;
    }
    ∷ file_rows show (i + 1) progress wanted first files

abbrev pub peer_row : PeerStats → PeerRow
unfolding transport_of
peer_row p = record {
  addr = p.addr;
  client = p.client_name;
  transport = transport_of p.conn_kind;
  state = p.state;
  downloaded = p.fetched_bytes;
  uploaded = p.uploaded_bytes;
}

-- `a.addr.cmp(&b.addr)`, as "may stand before".
abbrev pub by_addr : PeerRow → PeerRow → Bool
by_addr a b = not (text_ltb b.addr a.addr)

unfoldable pub to_details :
    (FilePath → Text)
    → ℕ
    → Option (List (FilePath × ℕ))
    → List ℕ
    → List Bool
    → List Bool
    → Option (List PeerStats)
    → Details
unfolding sort
to_details show id files progress wanted first peers = record {
  id = id;
  files = elim files as (λ _. List FileRow) [
    | none ↦ []
    | some infos ↦ file_rows show 0 progress wanted first infos
  ];
  peers = elim peers as (λ _. List PeerRow) [
    | none ↦ []
    | some found ↦ sort by_addr (map peer_row found)
  ];
}
