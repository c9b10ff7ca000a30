-- ===== src/Elgamal.antt =====
-- seal/elgamal.rs, over any group. A random scalar is drawn by `rand`, from the state of a
-- generator.
use pysui_crypto.Common.{◌≡◌, ap, ◌∙◌}
use pysui_crypto.Groups.{Group, GroupLaws}

module _ {S : Type 0} {R : Type 0} (rand : R → S × R) (g : Group S) where
  -- `Encryption`: the ephemeral key and the masked message.
  abbrev pub Encryption : Type 0
  Encryption = g.Elt × g.Elt

  -- `genkey`: the secret key, the public key and, in a second group with the same scalars, the
  -- verification key.
  unfoldable pub genkey : (vg : Group S) → R → (S × g.Elt × vg.Elt) × R
  genkey vg st =
      let (sk, st') = rand st in ((sk, g.mul g.generator sk, vg.mul vg.generator sk), st')

  unfoldable pub encrypt : R → g.Elt → g.Elt → Encryption × R
  encrypt st msg pk = let (r, st') = rand st in ((g.mul g.generator r, g.add (g.mul pk r) msg), st')

  unfoldable pub decrypt : S → Encryption → g.Elt
  decrypt sk e = g.sub e.1 (g.mul e.0 sk)

  -- With a key pair from `genkey`, `decrypt` undoes `encrypt`, whatever the random scalars are.
  pub decrypt-encrypt-genkey :
      GroupLaws g
      → (vg : Group S) (st st' : R) (msg : g.Elt)
      → let keys = (genkey vg st).0 in decrypt keys.0 (encrypt st' msg keys.1).0 ≡ msg
  unfolding genkey encrypt decrypt
  decrypt-encrypt-genkey laws vg st st' msg =
      ap (g.sub _) (laws.mul_swap g.generator (rand st').0 (rand st).0) ∙ laws.sub-add _ msg
