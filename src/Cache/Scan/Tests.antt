-- ===== src/Cache/Scan/Tests.antt =====
-- Runs of the pump (src/cache/scan.rs).
use tiny_s3_proxy.Prelude.{Ensures, List, [], arith, length, ok, refl, ◌∷◌, ◌≡◌, ℕ, ◌++◌}
use tiny_s3_proxy.Text.{Bytes, codes}
use tiny_s3_proxy.Cache.FileSystem.{FilePath}
use tiny_s3_proxy.Cache.Scan.{Joined, Pump, bounded_parallel_scan, finished}
use tiny_s3_proxy.Cache.Scan.Bounded.{length-bounded_parallel_scan}
use tiny_s3_proxy.Cache.Scan.Tracked.{IsTracked, Reaches, Reaches-IsTracked, begin, next}

abbrev three : List FilePath
three = codes "a" ∷ codes "b" ∷ codes "c" ∷ []

-- The world is the list of the paths in the order of their scans.
abbrev scan_path : FilePath → List FilePath → Joined Bytes ℕ × List FilePath
scan_path path w = (finished (ok (length path)), w ++ path ∷ [])

abbrev same_text : Bytes → Bytes
same_text text = text

-- Two at a time: the second ends first, then the third, which took its place.
scan-three :
    (bounded_parallel_scan scan_path same_text (1 ∷ 1 ∷ []) three 2 []).1
    ≡ codes "b" ∷ codes "c" ∷ codes "a" ∷ []
unfolding bounded_parallel_scan
scan-three = refl

abbrev after_one : Pump ℕ
after_one = record { live = codes "a" ∷ codes "c" ∷ []; waiting = []; results = 1 ∷ [] }

Reaches-after_one : Reaches scan_path same_text 2 three (codes "b" ∷ []) after_one
unfolding tiny_s3_proxy.Cache.Scan.spawn_first tiny_s3_proxy.Cache.Scan.turn
    tiny_s3_proxy.Cache.Scan.pick
Reaches-after_one = next 1 [] begin refl refl

Reaches-IsTracked_example : IsTracked scan_path same_text 2 three (codes "b" ∷ []) after_one
Reaches-IsTracked_example =
    Reaches-IsTracked scan_path same_text 2 three (codes "b" ∷ []) after_one Reaches-after_one

length-bounded_parallel_scan_example :
    Ensures
      (λ (results : List ℕ) (w : List FilePath). length results ≡ 3)
      (bounded_parallel_scan scan_path same_text (1 ∷ 1 ∷ []) three 2 [])
length-bounded_parallel_scan_example =
    length-bounded_parallel_scan scan_path same_text (1 ∷ 1 ∷ []) three 2 [] (omega arith)
