-- ===== src/Audience/Generate/Tests.antt =====
-- The queue of the scheduled campaign: two rows, for three contacts.
use ai_email_broadcast_hw.Base.{◌≡◌, refl, text_eq, All, count_where}
use ai_email_broadcast_hw.Store.{Store}
use ai_email_broadcast_hw.Audience.{has_row, sendable_for, generate_recipients, belongs_to}
use ai_email_broadcast_hw.Audience.Generate.{UniqueRows, IsQueued, Adds, generate_recipients_twice}
use ai_email_broadcast_hw.Samples.{runtime, store}

rows_unique : UniqueRows store.recipients
unfolding has_row text_eq
rows_unique = (refl, (refl, (refl, tt)))

abbrev after : Store
after = (generate_recipients runtime 1000 2 store).1

generate_recipients_twice_example :
    UniqueRows after.recipients
    × All (IsQueued runtime 1000 2 after) (sendable_for runtime 2 store)
    × Adds runtime 1000 2 store store.recipients after.recipients
    × ((generate_recipients runtime 1000 2 store).0.total
        ≡ count_where (belongs_to 2) after.recipients)
    × ((generate_recipients runtime 2000 2 after).1.recipients ≡ after.recipients)
    × ((generate_recipients runtime 2000 2 after).0.inserted ≡ 0)
generate_recipients_twice_example = generate_recipients_twice runtime 1000 2000 2 store rows_unique
