-- ===== src/Quadletref/Tests.antt =====
-- Runs of the extraction on the units of the tests.
use rucher.Base.{◌≡◌, refl, [], ◌∷◌}
use rucher.Base.Text.{trim_space, split, cut_prefix, cut_suffix, cut, before, join}
use rucher.Quadletref.{split_quoted, extract}

words : split_quoted "a 'b c' \"d e\" f\\ g" ≡ "a" ∷ "b c" ∷ "d e" ∷ "f g" ∷ []
unfolding split_quoted
words = refl

refs :
    extract
      "[Container]\r\nVolume=./conf.d/a.conf:/etc/a:ro\nSecret=db,type=env\nPodmanArgs=--secret pw \\\n --env-file=x.env\n"
    ≡ record { files = "a.conf" ∷ "x.env" ∷ []; secrets = "db" ∷ "pw" ∷ [] }
unfolding extract trim_space split cut_prefix cut_suffix cut before join
refs = refl
