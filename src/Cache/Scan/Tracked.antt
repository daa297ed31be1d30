-- ===== src/Cache/Scan/Tracked.antt =====
-- Which paths wait, are being scanned and have been scanned, in every state of the pump
-- (src/cache/scan.rs).
use mathlib.Core.Path.{subst}
use mathlib.Core.List.{Perm, append_assoc}
use mathlib.Core.List.Perm
use tiny_s3_proxy.Prelude.{
  List, [], err, length, ok, suc, zero, ℕ, ◌++◌, ◌∷◌, ◌≡◌, ◌≤◌, ◌⊎◌, refl, sym, ap, ◌∙◌,
  ok_injective, take-append-drop,
}
use tiny_s3_proxy.Text.{Bytes}
use tiny_s3_proxy.Cache.FileSystem.{FilePath}
use tiny_s3_proxy.Cache.Scan.{
  Joined, Pump, absorb, finished, join_error, joined, pick, spawn_first, top_up, turn,
}
use tiny_s3_proxy.Cache.Scan.Bounded.{
  IsBounded, absorb-IsBounded, length-pick, spawn_first-IsBounded,
}

pick-perm :
    (i : ℕ) (path : FilePath) (paths : List FilePath)
    → Perm ((pick i path paths).0 ∷ (pick i path paths).1) (path ∷ paths)
unfolding pick
pick-perm zero path paths = Perm.refl (path ∷ paths)
pick-perm (suc i) path [] = Perm.refl (path ∷ [])
pick-perm (suc i) path (next ∷ paths) =
    Perm.trans (Perm.swap path (pick i next paths).0 (pick i next paths).1)
      (Perm.cons path (pick-perm i next paths))

top_up-append :
    {T : Type 0} (live waiting : List FilePath) (results : List T)
    → (top_up live waiting results).live ++ (top_up live waiting results).waiting ≡ live ++ waiting
unfolding top_up
top_up-append live [] results = refl
top_up-append live (path ∷ waiting) results = append_assoc live (path ∷ []) waiting

results-top_up :
    {T : Type 0} (live waiting : List FilePath) (results : List T)
    → (top_up live waiting results).results ≡ results
unfolding top_up
results-top_up live [] results = refl
results-top_up live (path ∷ waiting) results = refl

module _ {W E T : Type 0} (work_fn : FilePath → W → Joined E T × W)
    (map_join_error : Bytes → E) where
  -- The states that the pump goes through, with the paths of the tasks that have ended, in order.
  pub data Reaches (limit : ℕ) (paths : List FilePath) : List FilePath → Pump T → Type 0 where
    begin : Reaches limit paths [] (spawn_first limit paths)
    next :
        (i : ℕ) (w : W) {ended : List FilePath} {pump pump' : Pump T} {path : FilePath}
        {live : List FilePath}
        → Reaches limit paths ended pump
        → pump.live ≡ path ∷ live
        → (turn work_fn map_join_error (pick i path live).0 (pick i path live).1 pump w).0
          ≡ ok pump'
        → Reaches limit paths (ended ++ (pick i path live).0 ∷ []) pump'

  -- Each path with the result that its scan has returned, in some world.
  abbrev pub AreResults : List FilePath → List T → Type 0
  AreResults [] [] = Unit
  AreResults [] (value ∷ values) = ⊥
  AreResults (path ∷ paths) [] = ⊥
  AreResults (path ∷ paths) (value ∷ values) =
      ((w : W) × ((work_fn path w).0 ≡ finished (ok value))) × AreResults paths values

  pub record IsTracked (limit : ℕ) (paths ended : List FilePath) (pump : Pump T) : Type 0 where
    pub bounded : length pump.live ≤ limit
    pub busy : length pump.waiting ≡ 0 ⊎ (length pump.live ≡ limit)
    pub accounted : Perm (ended ++ (pump.live ++ pump.waiting)) paths
    pub results : AreResults ended pump.results

  AreResults-append :
      (ended : List FilePath) (values : List T) (path : FilePath) (value : T) (w : W)
      → AreResults ended values
      → (work_fn path w).0 ≡ finished (ok value)
      → AreResults (ended ++ path ∷ []) (values ++ value ∷ [])
  AreResults-append [] [] path value w h e = ((w, e), tt)
  AreResults-append [] (v ∷ values) path value w h e = absurd h
  AreResults-append (p ∷ ended) [] path value w h e = absurd h
  AreResults-append (p ∷ ended) (v ∷ values) path value w h e =
      (h.0, AreResults-append ended values path value w h.1 e)

  -- What a turn that goes well has done.
  absorb-finished :
      (rest : List FilePath) (pump pump' : Pump T) (j : Joined E T)
      → absorb map_join_error rest pump j ≡ ok pump'
      → (value : T) × (j ≡ finished (ok value))
        × (pump' ≡ top_up rest pump.waiting (pump.results ++ value ∷ []))
  unfolding absorb joined
  absorb-finished rest pump pump' (join_error text) e = cc
  absorb-finished rest pump pump' (finished (err fault)) e = cc
  absorb-finished rest pump pump' (finished (ok value)) e = (value, refl, sym (ok_injective e))

  Reaches-IsAccounted :
      (limit : ℕ) (paths ended : List FilePath) (pump : Pump T)
      → Reaches limit paths ended pump
      → IsBounded limit (length paths) pump
        × Perm (ended ++ (pump.live ++ pump.waiting)) paths
        × AreResults ended pump.results
  unfolding turn spawn_first
  Reaches-IsAccounted limit paths _ _ begin = (
    spawn_first-IsBounded limit paths,
    subst (λ t. Perm t paths) (sym (take-append-drop limit paths)) (Perm.refl paths),
    tt,
  )
  Reaches-IsAccounted limit paths _ _
        (next i w {ended} {pump} {pump'} {path} {live} earlier is_live went) =
      let (bounds, accounted, results) = Reaches-IsAccounted limit paths ended pump earlier in
      let (picked, rest) = pick i path live in
      let (value, finishes, after) = absorb-finished rest pump pump' (work_fn picked w).0 went in
      let same : pump'.live ++ pump'.waiting ≡ rest ++ pump.waiting =
        ap (λ x. x.live ++ x.waiting) after
        ∙ top_up-append rest pump.waiting (pump.results ++ value ∷ []) in
      let shape : (ended ++ picked ∷ []) ++ (pump'.live ++ pump'.waiting)
          ≡ ended ++ ((picked ∷ rest) ++ pump.waiting) =
        append_assoc ended (picked ∷ []) (pump'.live ++ pump'.waiting)
        ∙ ap (λ t. ended ++ picked ∷ t) same in
      let permuted =
        Perm.append_left ended (Perm.append_right pump.waiting (pick-perm i path live)) in
      let before = subst (λ l. Perm (ended ++ (l ++ pump.waiting)) paths) is_live accounted in
      let stored : pump'.results ≡ pump.results ++ value ∷ [] =
        ap (λ x. x.results) after ∙ results-top_up rest pump.waiting (pump.results ++ value ∷ []) in
      (
        absorb-IsBounded map_join_error limit (length paths) path live rest pump pump'
            (work_fn picked w).0 is_live (length-pick i path live) bounds went,
        subst (λ t. Perm t paths) (sym shape) (Perm.trans permuted before),
        subst (AreResults (ended ++ picked ∷ [])) (sym stored)
            (AreResults-append ended pump.results picked value w results finishes),
      )

  -- Whatever the tasks do and in whatever order they end, in every state of the pump: at most `limit`
  -- tasks are alive, and fewer only when no path waits; the paths of the tasks that have ended, those
  -- of the tasks that are alive and those that wait are a permutation of the paths of the scan, none
  -- lost and none repeated; and the results are those of the ended tasks, in the order in which they
  -- ended, each what the task of its path returns in some state of the world.
  pub Reaches-IsTracked :
      (limit : ℕ) (paths ended : List FilePath) (pump : Pump T)
      → Reaches limit paths ended pump
      → IsTracked limit paths ended pump
  Reaches-IsTracked limit paths ended pump reached =
      let (bounds, accounted, results) = Reaches-IsAccounted limit paths ended pump reached in
      record {
        bounded = bounds.bounded;
        busy = bounds.busy;
        accounted = accounted;
        results = results;
      }
