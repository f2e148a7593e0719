-- ===== src/Lib.antt =====
-- kdevops-ng: the flows that build kernels and emulators, boot them as guests, run test suites in
-- them and bisect what fails. Each step is a Python script under f/; a flow runs steps and hands
-- the values that one returns to the next. This library models the logic of the steps; the tools
-- that they run (git, nix, ssh, qemu) are parameters.
--
-- How it is laid out:
--   Prelude          library names, decidable equality (`==`), lists, dictionaries and texts over
--                    the native numbers
--   Common.Json      the JSON values that steps pass to one another, with Python's dict operations
--   Common.Gitrefs   f/common/gitrefs.py: `_read_refs`, `_read_refnames` and `qualify_ref`. Picks
--                    relates the two.
--   Common.Gitrefs.Korg  f/common/gitrefs.py: `_korg_releases` over the cache and its marker. Quiet is
--                    about the calls after a fetch.
--   Common.Store     f/common/store.py and f/common/store_index.py. Index: `Host` is the index
--                    directory, with the store paths that exist; an operation is a function from
--                    hosts to hosts. `Transport` is what ssh and nix do. Catalog: forget and prune.
--                    Laws, Pruning and Layers hold the theorems. Refines: the calls of a client, on a
--                    host and on a map, with what nix promises.
--   Kunit.Ktap       f/kunit/common.py: `parse_ktap`, over lines that its regular expressions have
--                    sorted. Complete is about complete summaries.
--   Kernel.Bisect    f/kernel/bisect_step.py, bisect_judge.py and the while loop of
--                    bisect.flow/flow.yaml. Report: `_fresh_verdict`. Dicts and Bringup:
--                    `bringup_args`. State: state.json beside the clone, and the actions on both,
--                    which keep what was written before a raise. Step: `main`, with one function
--                    for each part of it. Loop: the flow's loop. Judge: the step after the loop.
--   Kernel.Checks    f/kernel/checks.py: `diagnostics` over sorted lines, `worktree_path`, `result` and
--                    `outcome`
--   Kernel.Identity  f/kernel/identity.py: `_fit_label` and the local version of `bake_identity`, with
--                    `_split_trailing_version` of f/common/worktree.py
--   Common.Worktree  f/common/worktree.py. Git: git and the file system, an interface over abstract
--                    states, and Git.Laws, what git documents of it. Sync: `_sync` and its probes.
--                    Labels: `_slug`, `_b4_slug` and `_compute_label`. Publish:
--                    `_publish_b4_branch`
--   Qsu.Drives       f/qsu/common.py: `nvme_drives`. Keys, Region and Backend say what its parts
--                    hold, Opens joins them.
--   Qsu.Machines     f/qsu/common.py: `_running_vms` and `vm_options`
--   Blktests         f/blktests. Wait: the poll loop of wait.py, one `Poll` for what a round sees.
--                    Results: the verdicts of common.py on a group and on the run. Results.Verdict
--                    joins the two. Args: the catalog of groups and `build_args` of common.py, which
--                    gives each group's unit its words. Files: the result files, from the
--                    directories to the rows.
--   Fstests.Wait     f/fstests/wait.py, whose loop has no budget for polls that raise. Ends and Finishes
--                    say when it ends, and with what.
--   Fstests.Xfs      f/fstests/common.py: the XFS features and `xfs_profiles_matrix`. Geometry and
--                    Complete say which profiles it holds.
--   Fstests.Config   f/fstests/common.py: `parse_sections`, `section_vars` and `section_block`, from
--                    texts to texts. Blocks works on lines, Texts on the text that is written.
--   Fstests.Args     f/fstests/common.py: `build_check_args` and `render_section_env`
--   Fstests.Devices  f/fstests/common.py: `inject_device_base`, `device_sector` and
--                    `section_device_map`
--   Fstests.Xunit    f/fstests/common.py: `parse_xunit` over the cases of a report, and the verdict
--                    of f/fstests/collect.py
--   Selftests.Ktap   f/selftests/common.py: `parse_ktap` over sorted lines, and the verdict of
--                    f/selftests/collect.py. Verdict joins them.
--   Selftests.Units  f/selftests/common.py: `unit_escape` and `item_unit`
--
-- Bounds and fuel. Numbers are natural (sizes, steps, times in whole ticks of a clock); a runtime is
-- of an abstract float type with the operations that the code uses. The loops that are not
-- structural are the bisect's and the waits': each takes one observation of the world per round
-- from a list, and is none where the list ends before the loop does. `decimal` prints with one
-- unit of fuel more than the number's value, which is at least its count of digits.
--
-- Not modelled: what is printed; the making of directories; reading and writing JSON as text; the
-- environment variables that name directories, which are taken to be set; a failure of `nix build
-- --out-link`; result files that are not UTF-8; backslashes in the lines that the devices fill in;
-- `guest or {}` at the start of a bisect step, whose guest is taken past it.
pub mod Blktests
pub mod Common
pub mod Fstests
pub mod Kernel
pub mod Kunit
pub mod Prelude
pub mod Qsu
pub mod Selftests
