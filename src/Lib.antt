-- ===== src/Lib.antt =====
-- The web console of ProxBack (web/src): the parts of it that decide something, and what makes them
-- correct. The console reads what the Go server sends, normalises it, lets an operator edit it in
-- wizards and posts the result.
--
-- The files, and the code that each is about:
--
--   Js              the language: texts as lists of code units, numbers as exact fractions, the values
--                   of a response, and the array operations that the code calls.
--   Api/Wire        web/src/api.ts: clampInt, timeOf, stringList.
--   Api/Schedule    Schedule, parseSchedule; to_value is the object that the client sends.
--   Api/Policy      JobPolicy, parsePolicy, isDefaultPolicy, policyHighlights.
--   Api/Retention   RetentionPolicy, parseRetention, retentionRuleCount, describeRetention, and the
--                   form of web/src/components/RetentionStep.tsx.
--   Api/Roles       parseRole, capabilitiesFor, roleOf.
--   Api/Errors      ApiError, parseError, request, errorMessage.
--   Api/Inventory   CachedVM, Backup, sourceVMID.
--   Format/Time, Format/Calendar, Format/NextRun, Format/Cron, Format/Words
--                   web/src/lib/format.ts: timeParts, padTime, lastDayOfMonth, nextRunOf, isValidCron,
--                   describeSchedule, describeScheduleSentence, describeNextRun, formatWallClock, with
--                   the Date operations that they use.
--   ScheduleEditor  web/src/components/ScheduleEditor.tsx: the draft, toSchedule, the time controls and
--                   the handlers.
--   PolicyStep      web/src/components/PolicyStep.tsx: the handlers of the protection step.
--   JobWizard       web/src/components/JobWizard.tsx: the form (Form), its steps, their buttons and the
--                   posted body (Steps).
--   RestoreWizard   web/src/components/RestoreWizard.tsx: the destination and its confirmation
--                   (Destination), the effects, the handlers and the request (Steps).
--   FileBrowser     web/src/components/FileBrowser.tsx: the folder and search shown, the debounced loads
--                   and their answers.
--   Toast           web/src/components/Toast.tsx: the list of toasts and its timers.
--   UseAsync        web/src/lib/useAsync.ts: the calls of a loader and the loading state of a page.
--   App, Layout     web/src/App.tsx: the gate before, in and after a session, its requests and routes;
--                   web/src/components/Layout.tsx: the navigation.
--   Theme           web/src/theme.tsx: the choice of a theme and its storage.
--   Api/Tags, Api/Targets, Api/Runs
--                   tagsOf, allTagsOf, vmsWithTag; normaliseWarning, capacityOf, targetLocation;
--                   reductionOf, and clampPct of web/src/lib/format.ts.
--   RestorePoints   web/src/pages/RestorePointsPage.tsx: groupSources, chainDepths, the open workloads.
--   VirtualMachines web/src/pages/VirtualMachinesPage.tsx: jobForVM, the counts of tags, the filters and
--                   the refresh of the inventory.
--   Monitor         web/src/pages/MonitorPage.tsx: the runs in flight and the history, with the samples of
--                   web/src/components/RunLive.tsx.
--   ServerTimezone  web/src/lib/useServerTimezone.ts: the zone that the pages read once and share.
--   HelpersSection  web/src/components/HelpersSection.tsx: the nodes without a helper.
--   RunDetail       web/src/components/RunDetailModal.tsx: the loads and polls of the dialog of a run.
--   Dashboard       web/src/pages/DashboardPage.tsx: the counts and rows of the workloads, the next run.
--   UsersPage, SettingsPage, TargetsPage, Forms
--                   web/src/pages: what the forms check and post; TargetsPage holds the form of
--                   web/src/pages/HostsPage.tsx too. UsersPage holds the requests that are under way,
--                   with UpdateUserRole and DeleteUser of internal/store/users.go, each in two steps as
--                   there is no transaction around its statements.
--   Prelude         shared names and lemmas. Tests holds runs at concrete inputs.
--
-- How they meet: the job wizard opens on what Api reads, its schedule comes from ScheduleEditor and is
-- complete by isScheduleComplete, its retention counts by retentionRuleCount, and its preview is
-- NextRun in the words of Format/Words, in the zone that ServerTimezone shares. The gate gives each page
-- the role of its session, and the navigation and the routes are driven by the same capabilities. A
-- component's state is a record, an event of the operator or of the server an element of a data type,
-- and a handler a function from state and event to state. The states that can come about are a relation
-- (Reached) that is closed under the events that the component offers.
--
-- Bounds and fuel: a number of a response is an exact fraction, so that the rounding of a decimal text
-- to a double is left out; texts beyond the range of a double are infinite as in the language. The
-- calendar is naive, as the code's Dates are, with months counted from the year 0; a date past the end
-- of a month is carried over with one round for each day, and a round takes 28 days or more. A number
-- is printed with one round for each digit, and it has no more digits than its value plus one. The depth of
-- a restore point is found with the guard of the code, the length of the list.
--
-- Not modelled: rendering and styles; the pages of the agents, the jobs and the audit; the formatting of
-- bytes, rates, durations and dates. fetch, JSON.parse, URL encoding, Intl, the order of localeCompare,
-- toLowerCase, the parsing of a date and the browser's clock are arguments, and the props of the restore
-- wizard stay as they are while it is open. The rest of the Go server, the agent and the
-- helper are another program, which the console sees through the values that it reads.
pub mod Api
pub mod App
pub mod Dashboard
pub mod FileBrowser
pub mod Format
pub mod Forms
pub mod HelpersSection
pub mod JobWizard
pub mod Js
pub mod Layout
pub mod Monitor
pub mod PolicyStep
pub mod Prelude
pub mod RestorePoints
pub mod RestoreWizard
pub mod RunDetail
pub mod ScheduleEditor
pub mod ServerTimezone
pub mod SettingsPage
pub mod TargetsPage
pub mod Tests
pub mod Theme
pub mod Toast
pub mod UseAsync
pub mod UsersPage
pub mod VirtualMachines
