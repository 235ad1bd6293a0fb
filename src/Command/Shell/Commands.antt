-- ===== src/Command/Shell/Commands.antt =====
-- Each entry of the table of commands is found (command.c, `cmdtab` and `command_lookup`).
use exec.Base.{ℕ, zero, suc, ◌≡◌, refl, some, List, [], ◌∷◌, get_elem?}
use exec.Command.Shell.Lookup.{CommandName, cmdtab, find_command}

abbrev AllFound : List CommandName → Type 0
AllFound [] = Unit {0}
AllFound (cn ∷ rest) =
    (find_command cn.prefix cmdtab ≡ some cn.handler)
    × (find_command cn.name cmdtab ≡ some cn.handler)
    × AllFound rest

cmdtab-AllFound : AllFound cmdtab
unfolding cmdtab find_command
cmdtab-AllFound = (
  refl,
  refl,
  (
    refl,
    refl,
    (
      refl,
      refl,
      (
        refl,
        refl,
        (
          refl,
          refl,
          (
            refl,
            refl,
            (
              refl,
              refl,
              (
                refl,
                refl,
                (
                  refl,
                  refl,
                  (
                    refl,
                    refl,
                    (
                      refl,
                      refl,
                      (
                        refl,
                        refl,
                        (
                          refl,
                          refl,
                          (
                            refl,
                            refl,
                            (
                              refl,
                              refl,
                              (
                                refl,
                                refl,
                                (
                                  refl,
                                  refl,
                                  (
                                    refl,
                                    refl,
                                    (
                                      refl,
                                      refl,
                                      (
                                        refl,
                                        refl,
                                        (
                                          refl,
                                          refl,
                                          (
                                            refl,
                                            refl,
                                            (
                                              refl,
                                              refl,
                                              (
                                                refl,
                                                refl,
                                                (
                                                  refl,
                                                  refl,
                                                  (
                                                    refl,
                                                    refl,
                                                    (refl, refl, (refl, refl, (refl, refl, tt))),
                                                  ),
                                                ),
                                              ),
                                            ),
                                          ),
                                        ),
                                      ),
                                    ),
                                  ),
                                ),
                              ),
                            ),
                          ),
                        ),
                      ),
                    ),
                  ),
                ),
              ),
            ),
          ),
        ),
      ),
    ),
  ),
)

AllFound-get_elem? :
    (tab : List CommandName) (i : ℕ) (cn : CommandName)
    → AllFound tab
    → get_elem? tab i ≡ some cn
    → (find_command cn.prefix cmdtab ≡ some cn.handler)
      × (find_command cn.name cmdtab ≡ some cn.handler)
AllFound-get_elem? [] i cn h e = cc
AllFound-get_elem? (x ∷ tab) zero cn (p, n, h) e = (cc, cc)
AllFound-get_elem? (x ∷ tab) (suc i) cn (p, n, h) e = AllFound-get_elem? tab i cn h e

pub find_command-get_elem? :
    (i : ℕ) (cn : CommandName)
    → get_elem? cmdtab i ≡ some cn
    → (find_command cn.prefix cmdtab ≡ some cn.handler)
      × (find_command cn.name cmdtab ≡ some cn.handler)
find_command-get_elem? i cn e = AllFound-get_elem? cmdtab i cn cmdtab-AllFound e
