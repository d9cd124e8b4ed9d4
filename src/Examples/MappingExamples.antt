-- ===== src/Examples/MappingExamples.antt =====
-- Tests of crates/zerem-engine/src/map.rs and of crates/zerem-core/src/fault.rs.
use zerem.Prelude.{true, false, none, some, [], ◌≡◌, refl}
use zerem.Prelude.Text.{codes}
use zerem.Torrent.{downloading, TorrentRow, shared}
use zerem.Fault.{os_code, reason, explain}
use zerem.Mapping.{ratio_x100, eta_secs}
use zerem.Mapping.Stalling.{IsStanding}

disk_full :
    explain (λ text. text) true (codes "write failed: (os error 112)")
    ≡ some (codes "Not enough space on the disk")
unfolding explain os_code reason
disk_full = refl

no_number : explain (λ text. text) false (codes "connection refused") ≡ none
unfolding explain os_code reason
no_number = refl

magnet_ratio : ratio_x100 50 0 ≡ 0
unfolding ratio_x100
magnet_ratio = refl

estimate : eta_secs 1000 400 60 ≡ some 10
unfolding eta_secs
estimate = refl

no_estimate : eta_secs 1000 400 0 ≡ none
unfolding eta_secs
no_estimate = refl

stuck : TorrentRow
unfolding shared
stuck = record (shared 1 [] [] 4000) { state = downloading; peers_total = 30; peers_connected = 4 }

stuck-IsStanding : IsStanding stuck
unfolding stuck shared
stuck-IsStanding = record { sized = refl; wants = refl; nothing = refl }
