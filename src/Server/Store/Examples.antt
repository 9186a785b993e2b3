-- ===== src/Server/Store/Examples.antt =====
-- The theorems on the store at concrete inputs.
use ptymux.Server.Store.{
  target_count, target_exists, Sessions, is_nil, find_tab, install_tab, remove_tab,
}
use ptymux.Server.Store.Laws.{same_target, find_tab-install_tab-other}
use ptymux.Server.Store.Removal.{find_tab-remove_tab-other}
use ptymux.Server.Store.Nonempty.{IsTidy, install_tab-IsTidy, remove_tab-IsTidy}
use ptymux.Server.Store.Laws.Count.{target_count-install_tab}
use ptymux.Prelude.{◌+◌, ◌≡◌, refl, false, [], ◌∷◌, if◌then◌else◌, codes, bytes_eq}

-- one session with two tabs in one pane
abbrev two_tabs : Sessions
two_tabs =
    (
      codes "work",
      record {
        name = codes "work";
        panes =
            (
              codes "1",
              record { name = codes "1"; tabs = (codes "build", 7) ∷ (codes "test", 8) ∷ [] },
            )
            ∷ [];
      },
    )
    ∷ []

two_tabs-IsTidy : IsTidy two_tabs
unfolding is_nil
two_tabs-IsTidy = (record { some_pane = refl; panes_full = (refl, tt) }, tt)

other_tab :
    same_target (codes "work") (codes "1") (codes "test") (codes "work") (codes "1") (codes "build")
    ≡ false
unfolding same_target bytes_eq
other_tab = refl

find_tab-install_tab-other_example :
    find_tab
      (install_tab two_tabs (codes "work") (codes "1") (codes "test") 9)
      (codes "work")
      (codes "1")
      (codes "build")
    ≡ find_tab two_tabs (codes "work") (codes "1") (codes "build")
find_tab-install_tab-other_example =
    find_tab-install_tab-other two_tabs (codes "work") (codes "1") (codes "test") 9 (codes "work")
      (codes "1") (codes "build") other_tab

find_tab-remove_tab-other_example :
    find_tab
      (remove_tab two_tabs (codes "work") (codes "1") (codes "test"))
      (codes "work")
      (codes "1")
      (codes "build")
    ≡ find_tab two_tabs (codes "work") (codes "1") (codes "build")
find_tab-remove_tab-other_example =
    find_tab-remove_tab-other two_tabs (codes "work") (codes "1") (codes "test") (codes "work")
      (codes "1") (codes "build") other_tab

install_tab-IsTidy_example :
    IsTidy (install_tab two_tabs (codes "play") (codes "1") (codes "test") 9)
install_tab-IsTidy_example =
    install_tab-IsTidy two_tabs (codes "play") (codes "1") (codes "test") 9 two_tabs-IsTidy

remove_tab-IsTidy_example : IsTidy (remove_tab two_tabs (codes "work") (codes "1") (codes "test"))
remove_tab-IsTidy_example =
    remove_tab-IsTidy two_tabs (codes "work") (codes "1") (codes "test") two_tabs-IsTidy

target_count-install_tab_example :
    target_count (install_tab two_tabs (codes "work") (codes "2") (codes "test") 9)
    ≡ target_count two_tabs
      + (if target_exists two_tabs (codes "work") (codes "2") (codes "test") then 0 else 1)
target_count-install_tab_example =
    target_count-install_tab two_tabs (codes "work") (codes "2") (codes "test") 9
