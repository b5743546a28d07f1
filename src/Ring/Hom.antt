-- ===== src/Ring/Hom.antt =====
-- Maps between rings that keep their operations, for `frobenius_map` (pairing/src/bls12_381).
use aws_dpid.Prelude.{◌≡◌}
use aws_dpid.Ring.{RingOps}

pub record IsHom {A C : Type 0} (F : RingOps A) (G : RingOps C) (f : A → C) : Type 0 where
  pub zero : f F.zero ≡ G.zero
  pub one : f F.one ≡ G.one
  pub add : (a b : A) → f (F.add a b) ≡ G.add (f a) (f b)
  pub mul : (a b : A) → f (F.mul a b) ≡ G.mul (f a) (f b)
