-- ===== src/Examples/LabelsExamples.antt =====
-- Tests of crates/zerem-core/src/fmt.rs, filename.rs, language.rs and mime.rs.
use zerem.Prelude.{◌==◌, false, none, some, [], ◌∷◌, ◌++◌, map, ◌≡◌, refl, arith}
use zerem.Prelude.Text.{codes, decimal}
use zerem.Labels.{eta, ratio, peers, percent, progress, shortfall, split_path}
use zerem.Language.{resolve, index_of, language_at}
use zerem.Mime.{mime_of, is_playable, path_of, url}
use zerem.Mime.Routing.{IsPlain, target-url}
use zerem.Snapshot.{StreamAt}
use zerem.Stream.{target}

times :
    map eta (none ∷ some 0 ∷ some 59 ∷ some 61 ∷ some 3661 ∷ some 90000 ∷ [])
    ≡ codes "∞" ∷ codes "—" ∷ codes "59s" ∷ codes "1m 1s" ∷ codes "1h 1m" ∷ codes "1d 1h" ∷ []
unfolding eta
times = refl

shared_twice : ratio 205 ≡ codes "2.05"
unfolding ratio
shared_twice = refl

some_peers : peers 3 12 ≡ codes "3 (12)"
unfolding peers
some_peers = refl

never_above : map (percent 300) (0 ∷ 100 ∷ 400 ∷ []) ≡ codes "0%" ∷ codes "100%" ∷ codes "75%" ∷ []
unfolding percent
never_above = refl

half_way : progress decimal 5 10 ≡ codes "5 / 10 · 50%"
unfolding progress
half_way = refl

exactly_full : shortfall decimal (λ t. t) 7 7 ≡ none
unfolding shortfall
exactly_full = refl

nested : split_path (λ c. c == 47) (codes "a/b/c.mkv") ≡ (codes "a › b › ", codes "c.mkv")
unfolding split_path
nested = refl

at_the_top : split_path (λ c. c == 47) (codes "c.mkv") ≡ ([], codes "c.mkv")
unfolding split_path
at_the_top = refl

languages :
    map resolve (codes " pt-br" ∷ codes "pt-PT" ∷ codes "kl-GL" ∷ codes "-x" ∷ codes "es_ES" ∷ [])
    ≡ codes "pt-BR" ∷ codes "pt-BR" ∷ codes "en" ∷ codes "en" ∷ codes "es" ∷ []
unfolding resolve
languages = refl

chosen :
    map (λ tag. language_at (index_of tag)) (codes "vi" ∷ codes "xx" ∷ []) ≡ codes "vi" ∷ [] ∷ []
unfolding index_of language_at
chosen = refl

kinds :
    map mime_of (codes "A.Film.MP4" ∷ codes ".mkv" ∷ codes "readme" ∷ [])
    ≡ some (codes "video/mp4") ∷ some (codes "video/x-matroska") ∷ none ∷ []
unfolding mime_of
kinds = refl

subtitles : is_playable (codes "subs.srt") ≡ false
unfolding is_playable
subtitles = refl

abbrev server : StreamAt
server = record { port = 51413; key = codes "0a1b" }

address : url server 7 2 ≡ codes "http://127.0.0.1:51413/0a1b/t/7/2"
unfolding url
address = refl

server-IsPlain : IsPlain server.key
server-IsPlain = ((refl, refl), ((refl, refl), ((refl, refl), ((refl, refl), tt))))

target-url_example :
    (url server 7 2 ≡ codes "http://127.0.0.1:" ++ (decimal server.port ++ path_of server.key 7 2))
    × (target (codes "GET " ++ (path_of server.key 7 2 ++ codes " HTTP/1.1")) server.key
        ≡ some (7, 2))
target-url_example = target-url server 7 2 server-IsPlain (omega arith) (omega arith)
