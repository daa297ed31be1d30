-- ===== src/Prelude/Calls.antt =====
-- Calls that change a world: each returns its result and the world after it.
use mathlib.Core.Path.{◌≡◌, refl, subst}
use tiny_s3_proxy.Prelude.Results.{Result, ok, err, err_injective, ok_injective}

-- `e?` on what an awaited call has returned.
abbrev pub attempt :
    {W E A B : Type 0} → (Result E A × W) → (A → W → Result E B × W) → Result E B × W
attempt (err fault, w) next = (err fault, w)
attempt (ok value, w) next = next value w

-- What a call that succeeds leaves behind, with its result.
abbrev pub Ensures : {W E A : Type 0} → (A → W → Type 0) → Result E A × W → Type 0
Ensures Post (ok a, w) = Post a w
Ensures Post (err e, w) = Unit

pub attempt-Ensures :
    {W E A B : Type 0} (Mid : A → W → Type 0) (Post : B → W → Type 0) (m : Result E A × W)
    (next : A → W → Result E B × W)
    → Ensures Mid m
    → ((a : A) (w : W) → Mid a w → Ensures Post (next a w))
    → Ensures Post (attempt m next)
attempt-Ensures Mid Post (ok a, w) next h rest = rest a w h
attempt-Ensures Mid Post (err e, w) next h rest = tt

pub Ensures-and :
    {W E A : Type 0} (Post : A → W → Type 0) (Also : W → Type 0) (m : Result E A × W)
    → Ensures Post m
    → Also m.1
    → Ensures (λ a w. Post a w × Also w) m
Ensures-and Post Also (ok a, w) h also = (h, also)
Ensures-and Post Also (err e, w) h also = tt

pub Ensures-at :
    {W E A : Type 0} (Post : A → W → Type 0) (m : Result E A × W) (a : A)
    → Ensures Post m
    → m.0 ≡ ok a
    → Post a m.1
Ensures-at Post (ok b, w) a h e = subst (λ x. Post x w) (ok_injective e) h
Ensures-at Post (err fault, w) a h e = cc

-- The other way.
pub Ensures-intro :
    {W E A : Type 0} (Post : A → W → Type 0) (m : Result E A × W)
    → ((a : A) → m.0 ≡ ok a → Post a m.1)
    → Ensures Post m
Ensures-intro Post (ok a, w) h = h a refl
Ensures-intro Post (err fault, w) h = tt

-- What a call that fails returns.
abbrev pub Fails : {W E A : Type 0} → (E → Type 0) → Result E A × W → Type 0
Fails Bad (ok a, w) = Unit
Fails Bad (err e, w) = Bad e

pub attempt-Fails :
    {W E A B : Type 0} (Bad : E → Type 0) (m : Result E A × W) (next : A → W → Result E B × W)
    → Fails Bad m
    → ((a : A) (w : W) → Fails Bad (next a w))
    → Fails Bad (attempt m next)
attempt-Fails Bad (ok a, w) next h rest = rest a w
attempt-Fails Bad (err e, w) next h rest = h

pub Fails-at :
    {W E A : Type 0} (Bad : E → Type 0) (m : Result E A × W) (e : E)
    → Fails Bad m
    → m.0 ≡ err e
    → Bad e
Fails-at Bad (ok a, w) e h eq = cc
Fails-at Bad (err fault, w) e h eq = subst Bad (err_injective eq) h
