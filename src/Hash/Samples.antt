-- ===== src/Hash/Samples.antt =====
-- A hash that keeps what is written to it.
use bqcubbit.Base.{Text, [], ◌++◌, refl}
use bqcubbit.Hash.{Hasher}
use bqcubbit.Hash.Reads.{HasherLaws}

abbrev pub keeping : Hasher
keeping = record { State = Text; fresh = []; write = λ p s. s ++ p; sum = λ s. s }

abbrev pub keeping_laws : HasherLaws keeping
keeping_laws = record {
  absorbed = λ s. s;
  digest = λ t. t;
  absorbed_fresh = refl;
  absorbed_write = λ p s. refl;
  sum_lem = λ s. refl;
}
