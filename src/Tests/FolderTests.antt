-- ===== src/Tests/FolderTests.antt =====
-- The deletion of the sample tenant's folder.
use server_deck_backend.Base.{◌≡◌, refl, some}
use server_deck_backend.Base.Outcome.{ok}
use server_deck_backend.Database.{Tables}
use server_deck_backend.Folders.{delete_folder}
use server_deck_backend.Folders.Laws.{IsUnreferenced, delete_folder-IsUnreferenced}
use server_deck_backend.Tests.Samples.{ann, acme, acme_tables, web_folder, session}

delete_folder-IsUnreferenced_example :
    ((delete_folder 31 ann session).0 ≡ ok tt)
    × ((left : Tables) × ((delete_folder 31 ann session).1.committed.tenants acme ≡ some left)
        × IsUnreferenced 31 left)
delete_folder-IsUnreferenced_example =
    delete_folder-IsUnreferenced 31 ann session acme_tables web_folder refl refl refl
