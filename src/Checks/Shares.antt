-- ===== src/Checks/Shares.antt =====
-- internal/checks/service: the configurations of Jenkins, of file shares and of Syncthing.
use keelix.Prelude.{not, ◌&&◌, [], ◌∷◌, if◌then◌else◌}
use keelix.Text.{codes, utf8, text_eq, lookup_text}
use keelix.Checks.{Check, failing, passing, concat, summary_fix}
use keelix.Checks.Services.{over_config, on_port, diff_fix, two_faults}

-- svc032.Run
unfoldable pub svc032 : Check
unfolding lookup_text text_eq
svc032 = over_config (codes "SVC032") (codes "jenkins-config") λ v.
    if not (text_eq (lookup_text (codes "useSecurity") v) (codes "false"))
    then passing (codes "SVC032") (codes "Jenkins security is enabled.")
    else record (failing (codes "SVC032")) {
      resource = (codes "jenkins config.xml");
      evidence = (codes "useSecurity=false");
      metadata = on_port (codes "8080");
      fix =
          diff_fix
            (codes
              "Set <useSecurity>true</useSecurity> in $JENKINS_HOME/config.xml and restart Jenkins, or run the Setup Wizard to configure an admin account.")
            (codes "<useSecurity>false</useSecurity>  ->  <useSecurity>true</useSecurity>");
    }
      ∷ []

-- svc040.Run
unfoldable pub svc040 : Check
unfolding lookup_text text_eq
svc040 = over_config (codes "SVC040") (codes "smb-conf") λ v.
    let shares = lookup_text (codes "guest-ok-shares") v in
    if text_eq shares []
    then passing (codes "SVC040") (codes "No Samba shares allow guest access.")
    else record (failing (codes "SVC040")) {
      resource = (codes "smb.conf");
      evidence = concat (
          (codes "guest-ok shares: ")
          ∷ shares
          ∷ (codes " (one or more shares have 'guest ok = yes')")
          ∷ []);
      metadata = on_port (codes "445");
      fix =
          diff_fix
            (codes
              "Remove 'guest ok = yes' from all share definitions in smb.conf and set 'map to guest = never' in [global].")
            (codes "   guest ok = yes  ->  (remove line)");
    }
      ∷ []

-- svc041.Run
unfoldable pub svc041 : Check
unfolding lookup_text text_eq
svc041 = over_config (codes "SVC041") (codes "nfs-exports") λ v.
    let squash = text_eq (lookup_text (codes "no_root_squash") v) (codes "true") in
    let world = text_eq (lookup_text (codes "world-export") v) (codes "true") in
    if not squash && not world
    then passing (codes "SVC041")
        (codes "NFS exports do not use no_root_squash and are not world-exported.")
    else record (failing (codes "SVC041")) {
      resource = (codes "/etc/exports");
      metadata = on_port (codes "2049");
      evidence =
          two_faults squash world (codes "no_root_squash=true; world-export=true")
            (codes "no_root_squash=true (remote root maps to local root)")
            (codes "world-export=true (export accessible from 0.0.0.0/0 or *)");
      fix =
          record (summary_fix (
            codes
              "Replace no_root_squash with root_squash in /etc/exports and restrict exports to specific host/subnet instead of * or 0.0.0.0/0. Run `exportfs -ra` after changes.")) {
                commands = (codes "exportfs -ra") ∷ [];
              };
    }
      ∷ []

-- svc052.Run
unfoldable pub svc052 : Check
unfolding lookup_text text_eq
svc052 = over_config (codes "SVC052") (codes "syncthing-config") λ v.
    if not (text_eq (lookup_text (codes "gui.auth") v) (codes "false"))
    then passing (codes "SVC052") (codes "Syncthing GUI authentication is configured.")
    else record (failing (codes "SVC052")) {
      resource = (codes "syncthing GUI");
      evidence = (codes "gui.auth=false (no username/password configured)");
      metadata = on_port (codes "8384");
      fix =
          record (summary_fix (
            utf8
              "Set a GUI password in Syncthing: Actions → Settings → GUI → set GUI Authentication User and GUI Authentication Password.")) {
                doc_url =
                    (codes "https://docs.syncthing.net/users/guilisten.html#gui-authentication");
              };
    }
      ∷ []
