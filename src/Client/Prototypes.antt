-- ===== src/Client/Prototypes.antt =====
-- The functions of library/include/bCAPClient/bcap_client.h: the number, by library/include/bcap_funcid.h, and the parameters that
-- are passed in, behind the file descriptor, in the order of the prototypes.
use denso_ipc.Prelude.{ℕ, List, [], ◌∷◌, ◌++◌}
use denso_ipc.Variant.{Bstr, Variant}
use denso_ipc.Client.{Arg, i4, r4, bstr, variant}

module _ (n x : ℕ → ℕ) (s : ℕ → Bstr) (v : ℕ → Variant) where
  abbrev service_prototypes : List (ℕ × List Arg)
  service_prototypes = (1, bstr (s 0) ∷ []) ∷ (2, []) ∷ []

  abbrev controller_prototypes : List (ℕ × List Arg)
  controller_prototypes =
      (3, bstr (s 0) ∷ bstr (s 1) ∷ bstr (s 2) ∷ bstr (s 3) ∷ [])
      ∷ (4, i4 (n 0) ∷ [])
      ∷ (5, i4 (n 0) ∷ bstr (s 0) ∷ bstr (s 1) ∷ [])
      ∷ (6, i4 (n 0) ∷ bstr (s 0) ∷ bstr (s 1) ∷ [])
      ∷ (7, i4 (n 0) ∷ bstr (s 0) ∷ bstr (s 1) ∷ [])
      ∷ (8, i4 (n 0) ∷ bstr (s 0) ∷ bstr (s 1) ∷ [])
      ∷ (9, i4 (n 0) ∷ bstr (s 0) ∷ bstr (s 1) ∷ [])
      ∷ (10, i4 (n 0) ∷ bstr (s 0) ∷ bstr (s 1) ∷ [])
      ∷ (11, i4 (n 0) ∷ bstr (s 0) ∷ [])
      ∷ (12, i4 (n 0) ∷ bstr (s 0) ∷ [])
      ∷ (13, i4 (n 0) ∷ bstr (s 0) ∷ [])
      ∷ (14, i4 (n 0) ∷ bstr (s 0) ∷ [])
      ∷ (15, i4 (n 0) ∷ bstr (s 0) ∷ [])
      ∷ (16, i4 (n 0) ∷ bstr (s 0) ∷ [])
      ∷ (17, i4 (n 0) ∷ bstr (s 0) ∷ variant (v 0) ∷ [])
      ∷ (18, i4 (n 0) ∷ [])
      ∷ (19, i4 (n 0) ∷ [])
      ∷ (20, i4 (n 0) ∷ [])
      ∷ (21, i4 (n 0) ∷ [])
      ∷ (22, i4 (n 0) ∷ [])
      ∷ (23, i4 (n 0) ∷ variant (v 0) ∷ [])
      ∷ (24, i4 (n 0) ∷ [])
      ∷ (25, i4 (n 0) ∷ variant (v 0) ∷ [])
      ∷ []

  abbrev extension_prototypes : List (ℕ × List Arg)
  extension_prototypes =
      (26, i4 (n 0) ∷ bstr (s 0) ∷ bstr (s 1) ∷ [])
      ∷ (27, i4 (n 0) ∷ bstr (s 0) ∷ [])
      ∷ (28, i4 (n 0) ∷ bstr (s 0) ∷ variant (v 0) ∷ [])
      ∷ (29, i4 (n 0) ∷ [])
      ∷ (30, i4 (n 0) ∷ [])
      ∷ (31, i4 (n 0) ∷ [])
      ∷ (32, i4 (n 0) ∷ [])
      ∷ (33, i4 (n 0) ∷ variant (v 0) ∷ [])
      ∷ (34, i4 (n 0) ∷ [])
      ∷ (35, i4 (n 0) ∷ variant (v 0) ∷ [])
      ∷ (36, i4 (n 0) ∷ [])
      ∷ []

  abbrev file_prototypes : List (ℕ × List Arg)
  file_prototypes =
      (37, i4 (n 0) ∷ bstr (s 0) ∷ bstr (s 1) ∷ [])
      ∷ (38, i4 (n 0) ∷ bstr (s 0) ∷ bstr (s 1) ∷ [])
      ∷ (39, i4 (n 0) ∷ bstr (s 0) ∷ [])
      ∷ (40, i4 (n 0) ∷ bstr (s 0) ∷ [])
      ∷ (41, i4 (n 0) ∷ bstr (s 0) ∷ variant (v 0) ∷ [])
      ∷ (42, i4 (n 0) ∷ bstr (s 0) ∷ bstr (s 1) ∷ [])
      ∷ (43, i4 (n 0) ∷ bstr (s 0) ∷ [])
      ∷ (44, i4 (n 0) ∷ bstr (s 0) ∷ bstr (s 1) ∷ [])
      ∷ (45, i4 (n 0) ∷ bstr (s 0) ∷ [])
      ∷ (46, i4 (n 0) ∷ [])
      ∷ (47, i4 (n 0) ∷ [])
      ∷ (48, i4 (n 0) ∷ [])
      ∷ (49, i4 (n 0) ∷ [])
      ∷ (50, i4 (n 0) ∷ [])
      ∷ (51, i4 (n 0) ∷ [])
      ∷ (52, i4 (n 0) ∷ [])
      ∷ (53, i4 (n 0) ∷ variant (v 0) ∷ [])
      ∷ (54, i4 (n 0) ∷ [])
      ∷ (55, i4 (n 0) ∷ [])
      ∷ (56, i4 (n 0) ∷ [])
      ∷ (57, i4 (n 0) ∷ [])
      ∷ (58, i4 (n 0) ∷ variant (v 0) ∷ [])
      ∷ (59, i4 (n 0) ∷ [])
      ∷ (60, i4 (n 0) ∷ variant (v 0) ∷ [])
      ∷ (61, i4 (n 0) ∷ [])
      ∷ []

  abbrev robot_prototypes : List (ℕ × List Arg)
  robot_prototypes =
      (62, i4 (n 0) ∷ bstr (s 0) ∷ bstr (s 1) ∷ [])
      ∷ (63, i4 (n 0) ∷ bstr (s 0) ∷ [])
      ∷ (64, i4 (n 0) ∷ bstr (s 0) ∷ variant (v 0) ∷ [])
      ∷ (65, i4 (n 0) ∷ i4 (n 1) ∷ r4 (x 0) ∷ r4 (x 1) ∷ [])
      ∷ (66, i4 (n 0) ∷ bstr (s 0) ∷ [])
      ∷ (67, i4 (n 0) ∷ bstr (s 0) ∷ [])
      ∷ (68, i4 (n 0) ∷ i4 (n 1) ∷ r4 (x 0) ∷ bstr (s 0) ∷ [])
      ∷ (69, i4 (n 0) ∷ [])
      ∷ (70, i4 (n 0) ∷ bstr (s 0) ∷ [])
      ∷ (71, i4 (n 0) ∷ bstr (s 0) ∷ [])
      ∷ (72, i4 (n 0) ∷ i4 (n 1) ∷ variant (v 0) ∷ bstr (s 0) ∷ [])
      ∷ (73, i4 (n 0) ∷ variant (v 0) ∷ r4 (x 0) ∷ variant (v 1) ∷ bstr (s 0) ∷ [])
      ∷ (74, i4 (n 0) ∷ i4 (n 1) ∷ r4 (x 0) ∷ [])
      ∷ (75, i4 (n 0) ∷ bstr (s 0) ∷ [])
      ∷ (76, i4 (n 0) ∷ bstr (s 0) ∷ [])
      ∷ (77, i4 (n 0) ∷ [])
      ∷ (78, i4 (n 0) ∷ [])
      ∷ (79, i4 (n 0) ∷ [])
      ∷ (80, i4 (n 0) ∷ [])
      ∷ (81, i4 (n 0) ∷ variant (v 0) ∷ [])
      ∷ (82, i4 (n 0) ∷ [])
      ∷ (83, i4 (n 0) ∷ variant (v 0) ∷ [])
      ∷ (84, i4 (n 0) ∷ [])
      ∷ []

  abbrev task_prototypes : List (ℕ × List Arg)
  task_prototypes =
      (85, i4 (n 0) ∷ bstr (s 0) ∷ bstr (s 1) ∷ [])
      ∷ (86, i4 (n 0) ∷ bstr (s 0) ∷ [])
      ∷ (87, i4 (n 0) ∷ bstr (s 0) ∷ variant (v 0) ∷ [])
      ∷ (88, i4 (n 0) ∷ i4 (n 1) ∷ bstr (s 0) ∷ [])
      ∷ (89, i4 (n 0) ∷ i4 (n 1) ∷ bstr (s 0) ∷ [])
      ∷ (90, i4 (n 0) ∷ bstr (s 0) ∷ [])
      ∷ (91, i4 (n 0) ∷ [])
      ∷ (92, i4 (n 0) ∷ [])
      ∷ (93, i4 (n 0) ∷ [])
      ∷ (94, i4 (n 0) ∷ [])
      ∷ (95, i4 (n 0) ∷ [])
      ∷ (96, i4 (n 0) ∷ variant (v 0) ∷ [])
      ∷ (97, i4 (n 0) ∷ [])
      ∷ (98, i4 (n 0) ∷ variant (v 0) ∷ [])
      ∷ (99, i4 (n 0) ∷ [])
      ∷ []

  abbrev variable_prototypes : List (ℕ × List Arg)
  variable_prototypes =
      (100, i4 (n 0) ∷ [])
      ∷ (101, i4 (n 0) ∷ [])
      ∷ (102, i4 (n 0) ∷ variant (v 0) ∷ [])
      ∷ (103, i4 (n 0) ∷ [])
      ∷ (104, i4 (n 0) ∷ [])
      ∷ (105, i4 (n 0) ∷ [])
      ∷ (106, i4 (n 0) ∷ [])
      ∷ (107, i4 (n 0) ∷ variant (v 0) ∷ [])
      ∷ (108, i4 (n 0) ∷ [])
      ∷ (109, i4 (n 0) ∷ variant (v 0) ∷ [])
      ∷ (110, i4 (n 0) ∷ [])
      ∷ (111, i4 (n 0) ∷ [])
      ∷ []

  abbrev command_prototypes : List (ℕ × List Arg)
  command_prototypes =
      (112, i4 (n 0) ∷ i4 (n 1) ∷ [])
      ∷ (113, i4 (n 0) ∷ [])
      ∷ (114, i4 (n 0) ∷ [])
      ∷ (115, i4 (n 0) ∷ i4 (n 1) ∷ [])
      ∷ (116, i4 (n 0) ∷ [])
      ∷ (117, i4 (n 0) ∷ [])
      ∷ (118, i4 (n 0) ∷ variant (v 0) ∷ [])
      ∷ (119, i4 (n 0) ∷ [])
      ∷ (120, i4 (n 0) ∷ [])
      ∷ (121, i4 (n 0) ∷ [])
      ∷ (122, i4 (n 0) ∷ [])
      ∷ (123, i4 (n 0) ∷ [])
      ∷ (124, i4 (n 0) ∷ variant (v 0) ∷ [])
      ∷ (125, i4 (n 0) ∷ [])
      ∷ (126, i4 (n 0) ∷ variant (v 0) ∷ [])
      ∷ (127, i4 (n 0) ∷ [])
      ∷ []

  abbrev message_prototypes : List (ℕ × List Arg)
  message_prototypes =
      (128, i4 (n 0) ∷ variant (v 0) ∷ [])
      ∷ (129, i4 (n 0) ∷ [])
      ∷ (130, i4 (n 0) ∷ [])
      ∷ (131, i4 (n 0) ∷ [])
      ∷ (132, i4 (n 0) ∷ [])
      ∷ (133, i4 (n 0) ∷ [])
      ∷ (134, i4 (n 0) ∷ [])
      ∷ (135, i4 (n 0) ∷ [])
      ∷ (136, i4 (n 0) ∷ [])
      ∷ (137, i4 (n 0) ∷ [])
      ∷ []

  abbrev pub prototypes : List (ℕ × List Arg)
  prototypes =
      service_prototypes
      ++ (controller_prototypes
          ++ (extension_prototypes
              ++ (file_prototypes
                  ++ (robot_prototypes
                      ++ (task_prototypes
                          ++ (variable_prototypes
                              ++ (command_prototypes ++ (message_prototypes))))))))
