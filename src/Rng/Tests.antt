-- ===== src/Rng/Tests.antt =====
-- Runs of the choice of the generator and of the feeding.
use systemboot.Base.{◌≡◌, refl, List, [], ◌∷◌, Bytes, bytes, equal, ◌++◌, message, err}
use systemboot.Platform.Rules.{Returns, NoPanic-call, NoPanic}
use systemboot.Vpd.Store.Memory.{memory}
use systemboot.Recovery.{Recoverer, permissive, permissive_recover}
use systemboot.Rng.{trng_list, select_trng, set_available_trng, feed_rounds}
use systemboot.Rng.Selected.{TrngEnding, set_available_trng-TrngEnding}
use systemboot.Platform.{Platform, Trace, Event, Answer, done, read_file, write_file}
use systemboot.Platform.Monad.{◌>>=◌, handle, call, call_text, raise}
use systemboot.Text.Split.{split_on}
use systemboot.Rng.Feed.{feed_rounds-Returns}

abbrev available : List Bytes
available = bytes "tpm-rng" ∷ bytes "timeriomem-rng" ∷ bytes "other" ∷ []

-- A machine on which the file of the current generator ends with a newline.
abbrev with_newline : Trace → Event → Answer Bytes
with_newline (write_file path content ∷ h) (read_file file) = done (content ++ bytes "\n")
with_newline h e = done (bytes "tpm-rng timeriomem-rng other")

abbrev machine : Platform
machine = record memory { text = with_newline }

set_available_trng-TrngEnding_example :
    TrngEnding machine [] (set_available_trng machine []).0 (set_available_trng machine []).1
set_available_trng-TrngEnding_example = set_available_trng-TrngEnding machine []

-- There, no generator can be selected.
newline_refused :
    (set_available_trng machine []).0
    ≡ err (message (bytes "Couldn't select TRNG: timeriomem-rng\n"))
unfolding set_available_trng select_trng split_on equal ◌>>=◌ handle call call_text raise
newline_refused = refl

-- The generator with the lowest priority is selected.
select_lowest : select_trng available [] trng_list ≡ bytes "timeriomem-rng"
unfolding select_trng equal
select_lowest = refl

abbrev shell : Recoverer
shell = permissive memory (record { recovery_command = bytes "/bin/elvish" })

shell-NoPanic : (text : Bytes) → NoPanic (shell.recover text)
unfolding permissive_recover
shell-NoPanic text = NoPanic-call memory _

feed_rounds-Returns_example : Returns (feed_rounds memory shell 4 5 6)
feed_rounds-Returns_example = feed_rounds-Returns memory shell 4 5 6 shell-NoPanic
